-- ===== src/Listing/AdminSearch.antt =====
-- `_search_via_admin_credentials`: an administrator's search, over the active credentials of the
-- selected providers, one call for each status.
use app_suscriptions_back.Prelude.{
  ℕ, String, not, Option, some, List, [], ◌∷◌, ◌++◌, length, if◌then◌else◌, ◌==◌,
}
use app_suscriptions_back.Errors.{Result, ok, ◌>>=◌}
use app_suscriptions_back.Domain.{Provider, value, Adapter, is_nonempty}
use app_suscriptions_back.Dict.{has, get}
use app_suscriptions_back.Cursors.{
  CursorMap, decode_admin_cursor, admin_cursor_key, status_cursor_key,
}
use app_suscriptions_back.Filters.Query.{
  ProviderFilters, SearchRequest, merge_search_filters, search_status_values,
}
use app_suscriptions_back.Dispatch.{call_limits}
use app_suscriptions_back.Listing.{
  SimListOut, Services, attempt, Report, no_report, set_status, set_failure, no_native_listing,
}
use app_suscriptions_back.Listing.Collect.{nothing, settle_statuses}
use app_suscriptions_back.Listing.Credentials.{CredentialRow, active_admin_credential_rows}
use app_suscriptions_back.Listing.Global.{names, is_done, cursor_of}
use app_suscriptions_back.Listing.SearchCalls.{selected, selected_names, skip_unselected}
use app_suscriptions_back.Listing.Admin.{
  AdminCall, Shown, no_credentials_status, merge_rows, page_from,
}

-- The calls whose limit is not 0. The others are dropped, also their cursors.
unfoldable pub drop_empty :
    {Creds : Type 0} → List (AdminCall Creds) → List ℕ → List (AdminCall Creds)
drop_empty [] limits = []
drop_empty (call ∷ calls) [] = []
drop_empty (call ∷ calls) (limit ∷ limits) =
    let rest = drop_empty calls limits in
    if limit == 0
    then rest
    else record call { query = record (call.query) { limit = limit } } ∷ rest

module _ {Creds : Type 0} (s : Services Creds) (rows : List CredentialRow)
    (body : SearchRequest) where
  open s use {python, codec, registry, load_credentials}

  -- The loop over the statuses of a credential.
  unfoldable pub row_calls :
      Option CursorMap
      → ℕ
      → String
      → Adapter Creds
      → Creds
      → ProviderFilters
      → List (Option String)
      → List (AdminCall Creds)
  unfolding admin_cursor_key status_cursor_key has get merge_search_filters
  row_calls cursors company name adapter creds own [] = []
  row_calls cursors company name adapter creds own (status ∷ statuses) =
      let key = admin_cursor_key python.id_text company name (some (status_cursor_key status)) in
      let rest = row_calls cursors company name adapter creds own statuses in
      if is_done cursors key
      then rest
      else record {
        credential_key = key;
        query = record {
          name = name;
          adapter = adapter;
          creds = creds;
          cursor = cursor_of cursors key;
          limit = 0;
          filters = merge_search_filters body own status;
        };
      }
        ∷ rest

  -- The loop over the credentials of a provider.
  unfoldable pub search_rows :
      Option CursorMap
      → String
      → ProviderFilters
      → List CredentialRow
      → Report
      → Result (List (AdminCall Creds) × Report)
  unfolding row_calls search_status_values set_failure
  search_rows cursors name own [] report = ok ([], report)
  search_rows cursors name own (row ∷ more) report =
      attempt (registry name) (λ e. ok ([], set_failure name e report))
        (λ adapter.
          if not adapter.searchable
          then ok ([], set_status (no_native_listing name) report)
          else attempt (load_credentials row.company_id name)
              (λ e. ok ([], set_failure name e report))
              (λ creds. ok (
                row_calls cursors row.company_id name adapter creds own (search_status_values own),
                report,
              )))
      >>= λ (calls, report'). search_rows cursors name own more report' >>= λ (others, report'').
          ok (calls ++ others, report'')

  -- The loop over the selected providers.
  unfoldable pub search_providers :
      Option CursorMap
      → List (Provider × ProviderFilters)
      → Report
      → Result (List (AdminCall Creds) × Report)
  unfolding active_admin_credential_rows search_rows value
  search_providers cursors [] report = ok ([], report)
  search_providers cursors ((provider, own) ∷ rest) report =
      let active = active_admin_credential_rows (some provider) rows in
      (if is_nonempty active
        then search_rows cursors (value provider) own active report
        else ok ([], set_status (no_credentials_status (value provider)) report))
      >>= λ (calls, report'). search_providers cursors rest report' >>= λ (others, report'').
          ok (calls ++ others, report'')

  -- The answer: the statuses of the selected providers are settled, those of all are shown.
  unfoldable pub admin_search_page : Shown → SimListOut
  unfolding page_from settle_statuses selected value
  admin_search_page shown =
      page_from s names shown.collected
        (settle_statuses (selected_names body) shown.collected shown.report)

  -- The calls get their limits and are answered.
  unfoldable pub finish_search : List (AdminCall Creds) × Report → SimListOut
  unfolding call_limits drop_empty merge_rows admin_search_page
  finish_search (calls, report) = admin_search_page (
      merge_rows s (drop_empty calls (call_limits body.limit (length calls)))
        (record { collected = nothing; report = report }))

  -- `_search_via_admin_credentials`
  unfoldable pub search_via_admin_credentials : Result SimListOut
  unfolding search_providers decode_admin_cursor skip_unselected selected finish_search value
  search_via_admin_credentials =
      search_providers (decode_admin_cursor codec body.cursor) (selected body)
        (skip_unselected (selected_names body) names no_report)
      >>= λ prepared. ok (finish_search prepared)
