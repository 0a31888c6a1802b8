-- ===== src/Listing/Global.antt =====
-- `_list_via_routing_index`: the listing over all providers, without filters. Its ICCID search is a
-- parameter here (Listing/Iccid).
use app_suscriptions_back.Prelude.{
  ℕ, String, Bool, true, false, not, ◌&&◌, ◌==◌, Option, none, some, List, [], ◌∷◌, ◌++◌, map,
  length, if◌then◌else◌,
}
use app_suscriptions_back.Errors.{
  Result, ok, err, ◌>>=◌, raise, domain, other, string, listing_precondition_failed,
  unsupported_operation,
}
use app_suscriptions_back.Domain.{
  Subscription, SearchFilters, has_filters, Provider, value, providers, Page, is_set, is_nonempty,
}
use app_suscriptions_back.Dict.{get, has}
use app_suscriptions_back.Cursors.{CursorMap, encode_global_cursor, decode_global_cursor}
use app_suscriptions_back.Normalization.Parts.{to_out}
use app_suscriptions_back.Normalization.Scalars.{SubscriptionOut}
use app_suscriptions_back.Dispatch.{
  call_limits, plain_status, not_queried, answered, is_global_iccid_search,
}
use app_suscriptions_back.Routing.Table.{Table}
use app_suscriptions_back.Listing.{
  SimListOut, Services, attempt, Query, response, Report, no_report, set_status, set_failure,
  set_cursor, in_order, no_native_listing, page_size, store_routes, first_fault,
}
pub mod Returned
pub mod Routed
pub mod Size
pub mod Pending
pub mod Narrowed
pub mod Steps
pub mod Counts
pub mod Answers
pub mod Reported

-- the names of the providers, in order
abbrev pub names : List String
names = map value providers

-- The error of a listing that found nothing. Its `extra` also has the failures, as a list.
abbrev pub nothing_found {ℓ} : {A : Type ℓ} → Result A
nothing_found = err (
    domain (record {
      kind = listing_precondition_failed;
      detail =
          some
            "Provider bootstrap did not discover any SIMs. Pass ?provider=<name> to inspect a specific source or import known ICCIDs via POST /v1/sims/import.";
      extra = ("reason", string "routing_map_empty") ∷ [];
    }))

-- The answers that came in so far. A statement that raises aborts the transaction.
pub record Merged : Type 0 where
  pub aborted : Bool
  pub items : List SubscriptionOut
  pub table : Table
  pub report : Report

-- `provider_cursors is not None and name not in provider_cursors`
abbrev pub is_done : Option CursorMap → String → Bool
is_done none name = false
is_done (some cursors) name = not (has name cursors)

-- `None if provider_cursors is None else provider_cursors.get(name)`
abbrev pub cursor_of : Option CursorMap → String → Option String
cursor_of none name = none
cursor_of (some cursors) name = elim (get name cursors) [ none ↦ none | some cursor ↦ cursor ]

module _ {Creds : Type 0} (s : Services Creds) (company : ℕ) where
  open s use {python, codec, registry, load_credentials, db_now, upsert_fault}

  -- The loop over the providers: the body for one of them, which gives a call or reports.
  unfoldable pub prepare : Option CursorMap → String → Report → Result (List (Query Creds) × Report)
  unfolding has get set_failure
  prepare cursors name report =
      if is_done cursors name
      then ok ([], set_status (plain_status name not_queried 0) report)
      else attempt (load_credentials company name) (λ e. ok ([], set_failure name e report))
          (λ creds.
            attempt (registry name) (λ e. ok ([], set_failure name e report))
              (λ adapter.
                if adapter.searchable
                then ok (
                  record {
                    name = name;
                    adapter = adapter;
                    creds = creds;
                    cursor = cursor_of cursors name;
                    limit = 0;
                    filters = adapter.bootstrap_filters;
                  }
                      ∷ [],
                  report,
                )
                else ok ([], set_status (no_native_listing name) report)))

  unfoldable pub prepare_all :
      Option CursorMap → List String → Report → Result (List (Query Creds) × Report)
  prepare_all cursors [] report = ok ([], report)
  prepare_all cursors (name ∷ rest) report = prepare cursors name report >>= λ (call, report').
      prepare_all cursors rest report' >>= λ (calls, report''). ok (call ++ calls, report'')

  -- Each call gets its limit; one whose limit is 0 is held back with its cursor.
  unfoldable pub share : List (Query Creds) → List ℕ → Report → List (Query Creds) × Report
  share [] limits report = ([], report)
  share (call ∷ calls) [] report = ([], report)
  share (call ∷ calls) (limit ∷ limits) report =
      let held = share calls limits (
        set_status (plain_status call.name not_queried 0)
          (set_cursor call.name call.cursor report)) in
      let asked = share calls limits report in
      if limit == 0 then held else (record call { limit = limit } ∷ asked.0, asked.1)

  -- The next cursor of a provider that answered, where there is one.
  abbrev pub keep_cursor : String → Option String → Report → Report
  keep_cursor name none report = report
  keep_cursor name (some cursor) report = set_cursor name (some cursor) report

  -- What the upserts of an answer raise. PostgreSQL refuses every statement of an aborted transaction.
  unfoldable pub upsert_failure : Bool → List Subscription → Option String
  unfolding first_fault
  upsert_failure aborted [] = none
  upsert_failure aborted (sub ∷ subs) =
      if aborted then some "InFailedSQLTransactionError" else first_fault upsert_fault (sub ∷ subs)

  -- what `items.extend` has taken over when a conversion raises
  unfoldable pub shown_before : List Subscription → List SubscriptionOut
  unfolding to_out
  shown_before [] = []
  shown_before (sub ∷ subs) =
      let later = shown_before subs in
      elim (python.fault sub) [ none ↦ to_out python sub ∷ later | some text ↦ [] ]

  -- the answer is shown; `fault` is what the conversions raise
  unfoldable pub show_answer :
      String → List Subscription → Option String → Option String → Merged → Merged
  unfolding to_out set_failure shown_before
  show_answer name subs next none m = record m {
    items = m.items ++ map (to_out python) subs;
    report = set_status (plain_status name answered (length subs)) (keep_cursor name next m.report);
  }
  show_answer name subs next (some fault) m = record m {
    items = m.items ++ shown_before subs;
    report = set_failure name (other fault) m.report;
  }

  -- the answer is stored, then shown; `fault` is what the upserts raise
  unfoldable pub store_answer :
      String → List Subscription → Option String → Option String → Merged → Merged
  unfolding store_routes set_failure show_answer first_fault
  store_answer name subs next (some fault) m = record m {
    aborted = true;
    report = set_failure name (other fault) m.report;
  }
  store_answer name subs next none m =
      show_answer name subs next (first_fault python.fault subs)
        (record m { table = store_routes python.unicode db_now name company subs m.table })

  -- What a provider's answer adds, with the `try` around its storing and its showing.
  unfoldable pub merge_answer : String → Result Page → Merged → Merged
  unfolding set_failure store_answer upsert_failure
  merge_answer name (err e) m = record m { report = set_failure name e m.report }
  merge_answer name (ok (subs, next)) m =
      store_answer name subs next (upsert_failure m.aborted subs) m

  unfoldable pub merge_answers : List (Query Creds) → Merged → Merged
  merge_answers [] m = m
  merge_answers (call ∷ calls) m = merge_answers calls (merge_answer call.name (response call) m)

  -- the answer of a listing that is no error
  unfoldable pub page_of : Merged → SimListOut
  unfolding in_order encode_global_cursor value
  page_of m = record {
    items = m.items;
    next_cursor = encode_global_cursor codec m.report.cursors;
    total = none;
    is_partial = is_nonempty (in_order names m.report.failures);
    failed_providers = in_order names m.report.failures;
    provider_statuses = in_order names m.report.statuses;
  }

  -- The end: an error when nothing was found and a provider failed, with the table as it was. The
  -- commit of an aborted transaction takes it back, and raises nothing.
  unfoldable pub conclude_listing : Table → Merged → Result SimListOut × Table
  unfolding in_order page_of
  conclude_listing table m =
      if not (is_nonempty m.items) && is_nonempty (in_order names m.report.failures)
      then (nothing_found, table)
      else (ok (page_of m), if is_nonempty m.items && not m.aborted then m.table else table)

  -- the limits of prepared calls
  abbrev pub share_page : ℕ → List (Query Creds) × Report → List (Query Creds) × Report
  share_page limit (calls, report) =
      share calls (call_limits (page_size limit) (length calls)) report

  -- the calls of a page, each with its limit, and the report before they are answered
  unfoldable pub plan_page : Option String → ℕ → Result (List (Query Creds) × Report)
  unfolding prepare_all share call_limits decode_global_cursor
  plan_page cursor limit =
      prepare_all (decode_global_cursor codec cursor) names no_report >>= λ prepared.
      ok (share_page limit prepared)

  -- what is merged before the first answer
  abbrev pub first : Table → Report → Merged
  first table report = record { aborted = false; items = []; table = table; report = report }

  -- the fan-out of `_list_via_routing_index`
  unfoldable pub list_page : Option String → ℕ → Table → Result SimListOut × Table
  unfolding plan_page merge_answers conclude_listing
  list_page cursor limit table = elim (plan_page cursor limit) [
    | err e ↦ (err e, table)
    | ok (calls, report) ↦ conclude_listing table (merge_answers calls (first table report))
  ]

  -- `_list_via_routing_index`, with the ICCID search passed in
  unfoldable pub list_via_routing_index :
      (SearchFilters → Table → Result SimListOut × Table)
      → Option String
      → ℕ
      → SearchFilters
      → Table
      → Result SimListOut × Table
  unfolding list_page has_filters is_global_iccid_search
  list_via_routing_index iccid_search cursor limit filters table =
      if not (has_filters filters)
      then list_page cursor limit table
      else if is_global_iccid_search filters
      then iccid_search filters table
      else (
        raise unsupported_operation
            "Canonical filters require provider-scoped listing (?provider=<name>)",
        table,
      )
