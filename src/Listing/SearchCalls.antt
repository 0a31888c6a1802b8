-- ===== src/Listing/SearchCalls.antt =====
-- The calls of a search over several providers: the first half of `_search_via_provider_filters`.
use app_suscriptions_back.Prelude.{
  ℕ, String, Bool, not, Option, none, some, List, [], ◌∷◌, ◌++◌, map, filter, length, if◌then◌else◌,
  str_eq, ltb, any,
}
use app_suscriptions_back.Errors.{Result, ok, ◌>>=◌}
use app_suscriptions_back.Domain.{
  no_filters, Provider, value, providers, Adapter, is_set, is_nonempty,
}
use app_suscriptions_back.Dict.{has}
use app_suscriptions_back.Cursors.{CursorMap, decode_status_cursor, status_cursor_key}
use app_suscriptions_back.Filters.Query.{
  ProviderFilters, SearchRequest, merge_search_filters, search_status_values, or_set,
}
use app_suscriptions_back.Dispatch.{call_limits, plain_status, not_queried}
use app_suscriptions_back.Listing.{
  Services, attempt, Query, Report, set_status, set_failure, no_native_listing,
}
use app_suscriptions_back.Listing.Global.{is_done, cursor_of}

-- `SimSearchProviderFilters()`
abbrev pub no_provider_filters : ProviderFilters
no_provider_filters = record {
  filters = no_filters;
  cursor = none;
  limit = none;
  status = none;
  statuses = [];
}

-- `body.providers or {provider: SimSearchProviderFilters() for provider in Provider}`
unfoldable pub selected : SearchRequest → List (Provider × ProviderFilters)
selected body =
    if is_nonempty body.providers
    then body.providers
    else map (λ provider. (provider, no_provider_filters)) providers

-- the names of the selected providers
abbrev pub selected_names : SearchRequest → List String
selected_names body = map (λ entry. value entry.0) (selected body)

-- The providers that are not selected get their status first.
unfoldable pub skip_unselected : List String → List String → Report → Report
skip_unselected chosen [] report = report
skip_unselected chosen (name ∷ rest) report = skip_unselected chosen rest (
    if any (λ other. str_eq other name) chosen
    then report
    else set_status (plain_status name not_queried 0) report)

-- The limits of the providers that name none.
abbrev pub default_limits : SearchRequest → List ℕ
default_limits body =
    call_limits body.limit (length (filter (λ entry. not (is_set (entry.1).limit)) (selected body)))

-- `next(default_limit_iter, body.limit)`, and the limits that are left
abbrev pub next_limit : ℕ → List ℕ → ℕ × List ℕ
next_limit fallback [] = (fallback, [])
next_limit fallback (limit ∷ limits) = (limit, limits)

abbrev pub limit_of : SearchRequest → Option ℕ → List ℕ → ℕ × List ℕ
limit_of body (some limit) limits = (limit, limits)
limit_of body none limits = next_limit body.limit limits

-- A prepared call: whether its provider has one cursor, or one for each status, and the status.
pub record SearchCall (Creds : Type 0) : Type 0 where
  pub query : Query Creds
  pub use_next_cursor : Bool
  pub status_key : String

-- the statuses that still have a cursor, where there are cursors for statuses
abbrev pub open_statuses : Option CursorMap → List (Option String) → List (Option String)
open_statuses none statuses = statuses
open_statuses (some cursors) statuses =
    filter (λ status. has (status_cursor_key status) cursors) statuses

-- the cursor of a status
abbrev pub status_cursor : Option CursorMap → Option String → String → Option String
status_cursor none provider_cursor key = provider_cursor
status_cursor (some cursors) provider_cursor key = cursor_of (some cursors) key

-- the calls of a provider, one for each status and limit
unfoldable pub status_calls :
    {Creds : Type 0}
    → (Option String → ℕ → SearchCall Creds)
    → List (Option String)
    → List ℕ
    → List (SearchCall Creds)
status_calls make [] limits = []
status_calls make (status ∷ statuses) [] = []
status_calls make (status ∷ statuses) (limit ∷ limits) =
    make status limit ∷ status_calls make statuses limits

module _ {Creds : Type 0} (s : Services Creds) (company : ℕ) (body : SearchRequest) where
  open s use {codec, registry, load_credentials}

  -- The calls of a provider that lists, from its cursor and its limit.
  unfoldable pub prepare_statuses :
      String
      → ProviderFilters
      → Option String
      → ℕ
      → Adapter Creds
      → Creds
      → Report
      → List (SearchCall Creds) × Report
  unfolding search_status_values decode_status_cursor status_cursor_key call_limits status_calls
      merge_search_filters has
  prepare_statuses name own cursor limit adapter creds report =
      let requested = search_status_values own in
      let by_status = decode_status_cursor codec cursor in
      let statuses = open_statuses by_status requested in
      if is_nonempty statuses
      then (
        status_calls
            (λ status status_limit. record {
              query = record {
                name = name;
                adapter = adapter;
                creds = creds;
                cursor = status_cursor by_status cursor (status_cursor_key status);
                limit = status_limit;
                filters = merge_search_filters body own status;
              };
              use_next_cursor = not (ltb 1 (length requested));
              status_key = status_cursor_key status;
            })
            statuses (call_limits limit (length statuses)),
        report,
      )
      else ([], set_status (plain_status name not_queried 0) report)

  -- The body of the loop over the selected providers, with the default limits that are left.
  unfoldable pub prepare_search :
      Option CursorMap
      → Provider × ProviderFilters
      → List ℕ
      → Report
      → Result (List (SearchCall Creds) × (List ℕ × Report))
  unfolding set_failure prepare_statuses value
  prepare_search cursors (provider, own) limits report =
      let name = value provider in
      let (limit, left) = limit_of body own.limit limits in
      if is_done cursors name
      then ok ([], (limits, set_status (plain_status name not_queried 0) report))
      else attempt (load_credentials company name) (λ e. ok ([], (left, set_failure name e report)))
          (λ creds.
            attempt (registry name) (λ e. ok ([], (left, set_failure name e report)))
              (λ adapter.
                let prepared =
                  prepare_statuses name own (or_set own.cursor (cursor_of cursors name)) limit
                    adapter creds report in
                if adapter.searchable
                then ok (prepared.0, (left, prepared.1))
                else ok ([], (left, set_status (no_native_listing name) report))))

  unfoldable pub prepare_searches :
      Option CursorMap
      → List (Provider × ProviderFilters)
      → List ℕ
      → Report
      → Result (List (SearchCall Creds) × Report)
  prepare_searches cursors [] limits report = ok ([], report)
  prepare_searches cursors (entry ∷ rest) limits report =
      prepare_search cursors entry limits report >>= λ (calls, (left, report')).
      prepare_searches cursors rest left report' >>= λ (more, report'').
      ok (calls ++ more, report'')
