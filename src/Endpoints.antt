-- ===== src/Endpoints.antt =====
-- app/subscriptions/routers/sims.py: the endpoints that list SIMs, count them, read one and import
-- them.
use Prim.Native.String.{◌++◌ as append}
use app_suscriptions_back.Prelude.{
  ℕ, ◌+◌, String, Bool, true, false, not, ◌&&◌, ◌||◌, Option, none, some, List, [], ◌∷◌, ◌++◌, map,
  filter, length, any, str_eq, if◌then◌else◌,
}
use app_suscriptions_back.Errors.{
  Result, ok, err, ◌>>=◌, domain, http, string, listing_precondition_failed,
}
use app_suscriptions_back.Domain.{
  Subscription, SearchFilters, no_filters, Provider, kite, tele2, moabits, value, is_nonempty,
}
use app_suscriptions_back.Normalization.{Python, split}
use app_suscriptions_back.Normalization.Scalars.{SubscriptionOut}
use app_suscriptions_back.Normalization.Parts.{convert}
use app_suscriptions_back.Cursors.{drop_prefix}
use app_suscriptions_back.Filters.{or_empty}
use app_suscriptions_back.Filters.Query.{
  parse_query_dt, parse_custom_filters, parse_optional_bool_query,
}
use app_suscriptions_back.Dispatch.{Failure, provider_failure}
use app_suscriptions_back.Routing.Text.{strip, is_blank}
use app_suscriptions_back.Routing.Table.{Route, Table, PrefixRoute, upsert_routing}
use app_suscriptions_back.Routing.NegativeCache.{Cache}
use app_suscriptions_back.Routing.Resolve.{Request, resolve_routing_or_discover}
use app_suscriptions_back.Listing.{SimListOut, Services, attempt}
use app_suscriptions_back.Listing.Global.{list_via_routing_index}
use app_suscriptions_back.Listing.Provider.{list_via_provider_search}
use app_suscriptions_back.Listing.Iccid.{list_global_iccid_search, routing_iccid}
use app_suscriptions_back.Listing.Credentials.{CredentialRow, active_admin_credential_rows}
use app_suscriptions_back.Listing.Admin.{list_via_admin_credentials, chosen_names}
use app_suscriptions_back.Stats.{
  Stats, no_stats, collect_stats, collect_provider_stats, merge_stats,
}
pub mod Lists
pub mod Statistics
pub mod Balanced
pub mod Imported
pub mod Details
mod Tests

-- The query parameters of a listing or of the statistics, as texts.
pub record SimQuery : Type 0 where
  pub status : Option String
  pub modified_since : Option String
  pub modified_till : Option String
  pub iccid : Option String
  pub imsi : Option String
  pub msisdn : Option String
  pub imei : Option String
  pub operator : Option String
  pub data_service : Option String
  pub sms_service : Option String
  pub last_lu_since : Option String
  pub last_lu_till : Option String
  pub imsi_list : Option String
  pub custom : List String

-- `status_filter or None`
abbrev pub text_or_none : Option String → Option String
text_or_none none = none
text_or_none (some s) = if str_eq s "" then none else some s

-- `_cursor_has_modified_since`
unfoldable pub cursor_has_modified_since : Option String → Bool
unfolding split drop_prefix
cursor_has_modified_since none = false
cursor_has_modified_since (some cursor) =
    not (str_eq cursor "")
    && any (λ word. elim (drop_prefix "since:" word) [ none ↦ false | some _ ↦ true ])
        (split "|" cursor)

-- What a listing answers: a page, or Tele2's own error for a missing date.
pub data ListAnswer : Type 0 where
  page : SimListOut → ListAnswer
  modified_since_required : ListAnswer

module _ (python : Python) (parse : String → Option (Result ℕ)) where
  open python use {unicode}

  -- `_build_filters`
  unfoldable pub build_filters : SimQuery → Result SearchFilters
  unfolding parse_query_dt parse_custom_filters
  build_filters query =
      parse_query_dt python parse query.modified_since "modified_since" >>= λ since.
      parse_query_dt python parse query.modified_till "modified_till" >>= λ till.
      parse_custom_filters python query.custom [] >>= λ custom. ok (record no_filters {
        status = text_or_none query.status;
        modified_since = since;
        modified_till = till;
        iccid = query.iccid;
        imsi = query.imsi;
        msisdn = query.msisdn;
        custom = custom;
      })

  -- `[item.strip() for item in (imsi_list or "").split(",") if item.strip()] or None`
  abbrev pub imsis_of : Option String → Option (List String)
  imsis_of raw =
      let imsis =
        map (λ item. strip unicode item)
          (filter (λ item. not (is_blank (strip unicode item))) (split "," (or_empty raw))) in
      if is_nonempty imsis then some imsis else none

  -- the filters of the statistics
  unfoldable pub stats_filters : SimQuery → Result SearchFilters
  unfolding parse_query_dt parse_custom_filters parse_optional_bool_query split
  stats_filters query =
      parse_query_dt python parse query.modified_since "modified_since" >>= λ since.
      parse_query_dt python parse query.modified_till "modified_till" >>= λ till.
      parse_optional_bool_query python query.data_service "data_service" >>= λ data_service.
      parse_optional_bool_query python query.sms_service "sms_service" >>= λ sms_service.
      parse_query_dt python parse query.last_lu_since "last_lu_since" >>= λ lu_since.
      parse_query_dt python parse query.last_lu_till "last_lu_till" >>= λ lu_till.
      parse_custom_filters python query.custom [] >>= λ custom. ok (record {
        status = query.status;
        modified_since = since;
        modified_till = till;
        iccid = query.iccid;
        imsi = query.imsi;
        msisdn = query.msisdn;
        imei = query.imei;
        operator = query.operator;
        data_service = data_service;
        sms_service = sms_service;
        last_lu_since = lu_since;
        last_lu_till = lu_till;
        imsi_list = imsis_of query.imsi_list;
        custom = custom;
      })

-- `SimImportItem`
pub record ImportItem : Type 0 where
  pub iccid : String
  pub provider : String

module _ {Creds : Type 0} (s : Services Creds) where
  -- the loop of `import_sims`
  unfoldable pub store_items : ℕ → List ImportItem → Table → Table
  unfolding upsert_routing
  store_items company [] table = table
  store_items company (item ∷ items) table =
      store_items company items
        (upsert_routing s.python.unicode s.db_now item.iccid item.provider company table)

  -- `import_sims`; `is_registered` is the registry's list, and the detail names the providers
  unfoldable pub import_sims :
      (String → Bool) → (List String → String) → List ImportItem → ℕ → Table → Result ℕ × Table
  unfolding store_items
  import_sims is_registered detail items company table =
      let unknown = filter (λ name. not (is_registered name)) (map (λ item. item.provider) items) in
      if is_nonempty unknown
      then (err (http 400 (detail unknown)), table)
      else (ok (length items), store_items company items table)

  -- `get_sim`
  unfoldable pub get_sim :
      Request Creds
      → List PrefixRoute
      → String
      → ℕ
      → Table
      → Cache
      → Result SubscriptionOut × Table × Cache
  unfolding resolve_routing_or_discover convert
  get_sim q prefixes iccid company table cache =
      let (found, table', cache') =
        resolve_routing_or_discover s.python.unicode q prefixes iccid company table cache in
      (
        found >>= λ (route, prefetched). elim prefetched [
          | some sub ↦ convert s.python sub
          | none ↦ s.load_credentials company route.provider >>= λ creds.
              s.registry route.provider >>= λ adapter.
              s.get_subscription route.provider (routing_iccid s company route iccid) creds
              >>= λ sub. convert s.python sub
        ],
        table',
        cache',
      )
