-- ===== src/Listing/Iccid.antt =====
-- `_list_global_iccid_search`: one ICCID, looked up in the routing tables, or else asked of every
-- provider that can filter by ICCID.
use Prim.Native.String.{◌++◌ as append}
use app_suscriptions_back.Prelude.{
  ℕ, ◌≡◌, refl, ap, subst, String, Bool, true, false, not, ◌||◌, Option, none, some, List, [], ◌∷◌,
  ◌++◌, map, length, All, if◌then◌else◌, str_eq,
}
use app_suscriptions_back.Errors.{Result, ok, err, ◌>>=◌, domain, Exception, unsupported_operation}
use app_suscriptions_back.Domain.{SearchFilters, Page, value, Provider, providers, is_nonempty}
use app_suscriptions_back.Filters.{or_empty}
use app_suscriptions_back.Normalization.Parts.{to_out, convert}
use app_suscriptions_back.Dispatch.{plain_status, answered, not_queried}
use app_suscriptions_back.Routing.Text.{route_iccid, is_blank}
use app_suscriptions_back.Routing.Table.{
  Route, PrefixRoute, Table, find_routing, find_prefix_routing,
}
use app_suscriptions_back.Listing.{
  SimListOut, Services, Query, response, attempt, Report, no_report, set_status, set_failure,
  in_order, store_routes,
}
use app_suscriptions_back.Listing.Global.{Merged, names, first}
pub mod Stored

-- the failure of a provider that cannot filter by ICCID
abbrev pub no_iccid_filter : String → Exception
no_iccid_filter name = domain (record {
  kind = unsupported_operation;
  detail = some (append name " list_subscriptions does not support ICCID filters");
  extra = [];
})

module _ {Creds : Type 0} (s : Services Creds) (company : ℕ) where
  open s use {python, registry, load_credentials, get_subscription, db_now}

  -- `_routing_iccid`
  abbrev pub routing_iccid : Route → String → String
  routing_iccid route iccid =
      if is_blank route.iccid then route_iccid python.unicode iccid else route.iccid

  -- `_find_routing`, and `_find_prefix_routing` where it finds nothing
  unfoldable pub find_any : List PrefixRoute → String → Table → Result (Option Route)
  unfolding find_routing find_prefix_routing
  find_any prefixes iccid table = find_routing python.unicode iccid company table >>= λ found.
      elim found [
        | some route ↦ ok (some route)
        | none ↦ find_prefix_routing python.unicode iccid company prefixes
      ]

  -- the answer for a SIM whose provider is known
  unfoldable pub show_routed : String → Route → Result SimListOut
  unfolding convert value route_iccid
  show_routed iccid route = load_credentials company route.provider >>= λ creds.
      registry route.provider >>= λ adapter.
      get_subscription route.provider (routing_iccid route iccid) creds >>= λ sub.
      convert python sub >>= λ shown. ok (record {
        items = shown ∷ [];
        next_cursor = none;
        total = none;
        is_partial = false;
        failed_providers = [];
        provider_statuses =
            map
              (λ name.
                if str_eq name route.provider
                then plain_status name answered 1
                else plain_status name not_queried 0)
              names;
      })

  -- The loop over the providers: the body for one of them.
  unfoldable pub prepare_lookup : String → String → Report → Result (List (Query Creds) × Report)
  unfolding set_failure
  prepare_lookup iccid name report =
      attempt (registry name) (λ e. ok ([], set_failure name e report))
        (λ adapter.
          if not adapter.searchable || not (adapter.supports_list_filter "iccid")
          then ok ([], set_failure name (no_iccid_filter name) report)
          else attempt (load_credentials company name) (λ e. ok ([], set_failure name e report))
              (λ creds. ok (
                record {
                  name = name;
                  adapter = adapter;
                  creds = creds;
                  cursor = none;
                  limit = 1;
                  filters = record (adapter.bootstrap_filters) { iccid = some iccid };
                }
                    ∷ [],
                report,
              )))

  unfoldable pub prepare_lookups :
      String → List String → Report → Result (List (Query Creds) × Report)
  prepare_lookups iccid [] report = ok ([], report)
  prepare_lookups iccid (name ∷ rest) report =
      prepare_lookup iccid name report >>= λ (call, report').
      prepare_lookups iccid rest report' >>= λ (calls, report''). ok (call ++ calls, report'')

  -- What a provider's answer adds.
  unfoldable pub merge_lookup : String → Result Page → Merged → Merged
  unfolding to_out store_routes set_failure
  merge_lookup name (err e) m = record m { report = set_failure name e m.report }
  merge_lookup name (ok (subs, next)) m = record m {
    items = m.items ++ map (to_out python) subs;
    table = store_routes python.unicode db_now name company subs m.table;
    report = set_status (plain_status name answered (length subs)) m.report;
  }

  unfoldable pub merge_lookups : List (Query Creds) → Merged → Merged
  merge_lookups [] m = m
  merge_lookups (call ∷ calls) m = merge_lookups calls (merge_lookup call.name (response call) m)

  unfoldable pub lookup_page : Merged → SimListOut
  unfolding in_order value
  lookup_page m = record {
    items = m.items;
    next_cursor = none;
    total = none;
    is_partial = is_nonempty (in_order names m.report.failures);
    failed_providers = in_order names m.report.failures;
    provider_statuses = in_order names m.report.statuses;
  }

  -- every provider is asked
  unfoldable pub ask_all : String → Table → Result SimListOut × Table
  unfolding prepare_lookups merge_lookups lookup_page value
  ask_all iccid table = elim (prepare_lookups iccid names no_report) [
    | err e ↦ (err e, table)
    | ok (calls, report) ↦
        let m = merge_lookups calls (first s company table report) in
        (ok (lookup_page m), if is_nonempty m.items then m.table else table)
  ]

  -- `_list_global_iccid_search`
  unfoldable pub list_global_iccid_search :
      List PrefixRoute → SearchFilters → Table → Result SimListOut × Table
  unfolding find_any show_routed ask_all route_iccid
  list_global_iccid_search prefixes filters table =
      let iccid = route_iccid python.unicode (or_empty filters.iccid) in
      elim (find_any prefixes iccid table) [
        | err e ↦ (err e, table)
        | ok (some route) ↦ (show_routed iccid route, table)
        | ok none ↦ ask_all iccid table
      ]
