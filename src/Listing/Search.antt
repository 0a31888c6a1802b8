-- ===== src/Listing/Search.antt =====
-- `_search_via_provider_filters`: a search over several providers, with filters for each of them.
use app_suscriptions_back.Prelude.{
  ℕ, ◌+◌, String, Bool, true, false, not, Option, none, some, List, [], ◌∷◌, ◌++◌, map, filter,
  length, if◌then◌else◌, str_eq, ltb, any,
}
use app_suscriptions_back.Errors.{Result, ok, err, ◌>>=◌}
use app_suscriptions_back.Domain.{
  Subscription, SearchFilters, no_filters, Page, Provider, value, providers, Adapter, is_set,
  is_nonempty,
}
use app_suscriptions_back.Dict.{Dict, get, has, put}
use app_suscriptions_back.Cursors.{
  CursorMap, encode_global_cursor, decode_global_cursor, encode_status_cursor, decode_status_cursor,
  status_cursor_key,
}
use app_suscriptions_back.Filters.{apply_post_filters}
use app_suscriptions_back.Filters.Query.{
  ProviderFilters, SearchRequest, merge_search_filters, search_status_values, or_set,
}
use app_suscriptions_back.Dispatch.{call_limits, plain_status, not_queried}
use app_suscriptions_back.Routing.Table.{Table}
use app_suscriptions_back.Listing.{
  SimListOut, Services, attempt, Query, response, Report, no_report, set_status, set_failure,
  set_cursor, in_order, no_native_listing, store_routes,
}
use app_suscriptions_back.Listing.Collect.{
  Collected, nothing, set_error, add_subs, settle_statuses, ItemKey,
}
use app_suscriptions_back.Listing.Global.{names}
use app_suscriptions_back.Listing.SearchCalls.{
  selected, selected_names, skip_unselected, default_limits, SearchCall, prepare_searches,
}
pub mod Named
pub mod Stored

-- What the search has: the SIMs, the next cursors of providers and of their statuses, the table.
pub record Found : Type 0 where
  pub collected : Collected
  pub report : Report
  pub status_cursors : Dict CursorMap
  pub table : Table

-- `d.setdefault(name, {})[key] = cursor`
unfoldable pub put_status_cursor : String → String → Option String → Dict CursorMap → Dict CursorMap
unfolding get put
put_status_cursor name key cursor d =
    put name (put key cursor (elim (get name d) [ none ↦ [] | some inner ↦ inner ])) d

module _ {Creds : Type 0} (s : Services Creds) (company : ℕ) (body : SearchRequest) where
  open s use {python, codec, registry, load_credentials, db_now}

  -- the cursor that a call's answer leaves
  abbrev pub keep_next : SearchCall Creds → Option String → Found → Found
  keep_next call none f = f
  keep_next call (some next) f =
      if call.use_next_cursor
      then record f { report = set_cursor call.query.name (some next) f.report }
      else record f {
        status_cursors =
            put_status_cursor call.query.name call.status_key (some next) f.status_cursors;
      }

  -- What an answer adds. Storing a route and showing a SIM do not depend on each other.
  unfoldable pub merge_search : SearchCall Creds → Result Page → Found → Found
  unfolding set_error apply_post_filters add_subs store_routes put_status_cursor
  merge_search call (err e) f = record f { collected = set_error call.query.name e f.collected }
  merge_search call (ok (raw, next)) f =
      let name = call.query.name in
      let subs = apply_post_filters python call.query.filters raw in
      keep_next call next (record f {
        collected = add_subs python name (λ sub. name ∷ sub.iccid ∷ []) subs f.collected;
        table = store_routes python.unicode db_now name company subs f.table;
      })

  unfoldable pub merge_searches : List (SearchCall Creds) → Found → Found
  merge_searches [] f = f
  merge_searches (call ∷ calls) f = merge_searches calls (merge_search call (response call.query) f)

  -- The cursors of a provider's statuses become its cursor.
  unfoldable pub join_status_cursors : Dict CursorMap → Report → Report
  unfolding encode_status_cursor
  join_status_cursors [] report = report
  join_status_cursors ((name, cursors) ∷ rest) report =
      join_status_cursors rest (elim (encode_status_cursor codec cursors) [
        | none ↦ report
        | some cursor ↦ set_cursor name (some cursor) report
      ])

  unfoldable pub search_page : Found → SimListOut
  unfolding join_status_cursors settle_statuses in_order encode_global_cursor value selected
  search_page f =
      let report =
        settle_statuses (selected_names body) f.collected
          (join_status_cursors f.status_cursors f.report) in
      record {
        items = f.collected.items;
        next_cursor = encode_global_cursor codec report.cursors;
        total = none;
        is_partial = is_nonempty (in_order names report.failures);
        failed_providers = in_order names report.failures;
        provider_statuses = in_order names report.statuses;
      }

  -- what is found before the first answer
  abbrev pub no_answer : Table → Report → Found
  no_answer table report = record {
    collected = nothing;
    report = report;
    status_cursors = [];
    table = table;
  }

  -- `_search_via_provider_filters`
  unfoldable pub search_via_provider_filters : Table → Result SimListOut × Table
  unfolding decode_global_cursor prepare_searches skip_unselected selected call_limits
      merge_searches search_page value
  search_via_provider_filters table =
      elim (prepare_searches s company body (decode_global_cursor codec body.cursor) (selected body)
        (default_limits body) (skip_unselected (selected_names body) names no_report)) [
          | err e ↦ (err e, table)
          | ok (calls, report) ↦
              let f = merge_searches calls (no_answer table report) in
              (ok (search_page f), if is_nonempty f.collected.items then f.table else table)
        ]
