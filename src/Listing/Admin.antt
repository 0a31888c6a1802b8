-- ===== src/Listing/Admin.antt =====
-- `_list_via_admin_credentials`: an administrator's listing, over every active credential of every
-- company. It stores no routes.
use app_suscriptions_back.Prelude.{
  ℕ, String, false, not, Option, none, some, List, [], ◌∷◌, ◌++◌, map, length, if◌then◌else◌, ◌==◌,
}
use app_suscriptions_back.Errors.{Result, ok, err, ◌>>=◌}
use app_suscriptions_back.Domain.{
  Subscription, SearchFilters, Page, Provider, value, is_set, is_nonempty,
}
use app_suscriptions_back.Dict.{get, has, set_default}
use app_suscriptions_back.Cursors.{
  CursorMap, encode_admin_cursor, decode_admin_cursor, admin_cursor_key,
}
use app_suscriptions_back.Filters.{apply_post_filters}
use app_suscriptions_back.Dispatch.{ProviderStatus, call_limits, plain_status, not_queried}
use app_suscriptions_back.Listing.{
  SimListOut, Services, attempt, Query, response, Report, no_report, set_status, set_failure,
  set_cursor, in_order, no_native_listing, page_size,
}
use app_suscriptions_back.Listing.Collect.{
  Collected, nothing, set_error, add_subs, settle_statuses, ItemKey,
}
use app_suscriptions_back.Listing.Credentials.{
  CredentialRow, active_admin_credential_rows, admin_effective_filters,
}
use app_suscriptions_back.Listing.Global.{names, is_done, cursor_of}

-- A prepared call of one credential, with the key of its cursor.
pub record AdminCall (Creds : Type 0) : Type 0 where
  pub credential_key : String
  pub query : Query Creds

-- the providers that the answer reports on
abbrev pub chosen_names : Option Provider → List String
chosen_names none = names
chosen_names (some provider) = value provider ∷ []

abbrev pub no_credentials_status : String → ProviderStatus
no_credentials_status name = record {
  provider = name;
  status = not_queried;
  count = 0;
  code = none;
  title = some "No active credentials";
}

-- What the listing has: the SIMs, the statuses and the next cursors.
pub record Shown : Type 0 where
  pub collected : Collected
  pub report : Report

module _ {Creds : Type 0} (s : Services Creds) where
  open s use {python, codec, registry, load_credentials}

  -- `item_key` of an administrator's listing
  abbrev pub item_key : String → Subscription → ItemKey
  item_key name sub = python.id_text sub.company_id ∷ name ∷ sub.iccid ∷ []

  -- The body of the loop over the credentials.
  unfoldable pub prepare_row :
      SearchFilters
      → Option Provider
      → Option CursorMap
      → CredentialRow
      → Report
      → Result (List (AdminCall Creds) × Report)
  unfolding admin_cursor_key has get set_failure set_default admin_effective_filters
  prepare_row filters provider cursors row report =
      let name = row.provider in
      let key = admin_cursor_key python.id_text row.company_id name none in
      if is_done cursors key
      then ok (
        [],
        record report {
          statuses = set_default name (plain_status name not_queried 0) report.statuses;
        },
      )
      else attempt (registry name) (λ e. ok ([], set_failure name e report))
          (λ adapter.
            if not adapter.searchable
            then ok ([], set_status (no_native_listing name) report)
            else attempt (load_credentials row.company_id name)
                (λ e. ok ([], set_failure name e report))
                (λ creds. ok (
                  record {
                    credential_key = key;
                    query = record {
                      name = name;
                      adapter = adapter;
                      creds = creds;
                      cursor = cursor_of cursors key;
                      limit = 0;
                      filters = admin_effective_filters adapter filters (not (is_set provider));
                    };
                  }
                      ∷ [],
                  report,
                )))

  unfoldable pub prepare_rows :
      SearchFilters
      → Option Provider
      → Option CursorMap
      → List CredentialRow
      → Report
      → Result (List (AdminCall Creds) × Report)
  prepare_rows filters provider cursors [] report = ok ([], report)
  prepare_rows filters provider cursors (row ∷ rows) report =
      prepare_row filters provider cursors row report >>= λ (call, report').
      prepare_rows filters provider cursors rows report' >>= λ (calls, report'').
      ok (call ++ calls, report'')

  -- Each call gets its limit; one whose limit is 0 is held back with its cursor.
  unfoldable pub share_rows :
      List (AdminCall Creds) → List ℕ → Report → List (AdminCall Creds) × Report
  share_rows [] limits report = ([], report)
  share_rows (call ∷ calls) [] report = ([], report)
  share_rows (call ∷ calls) (limit ∷ limits) report =
      let held =
        share_rows calls limits (set_cursor call.credential_key call.query.cursor report) in
      let asked = share_rows calls limits report in
      if limit == 0
      then held
      else (record call { query = record (call.query) { limit = limit } } ∷ asked.0, asked.1)

  -- the next cursor of a credential, where there is one
  abbrev pub keep_row_cursor : String → Option String → Report → Report
  keep_row_cursor key none report = report
  keep_row_cursor key (some next) report = set_cursor key (some next) report

  unfoldable pub merge_row : AdminCall Creds → Result Page → Shown → Shown
  unfolding set_error apply_post_filters add_subs
  merge_row call (err e) shown = record shown {
    collected = set_error call.query.name e shown.collected;
  }
  merge_row call (ok (raw, next)) shown =
      let name = call.query.name in
      record {
        collected =
            add_subs python name (item_key name) (apply_post_filters python call.query.filters raw)
              shown.collected;
        report = keep_row_cursor call.credential_key next shown.report;
      }

  unfoldable pub merge_rows : List (AdminCall Creds) → Shown → Shown
  merge_rows [] shown = shown
  merge_rows (call ∷ calls) shown = merge_rows calls (merge_row call (response call.query) shown)

  -- the answer over some providers, whose statuses are settled
  unfoldable pub page_from : List String → Collected → Report → SimListOut
  unfolding in_order encode_admin_cursor
  page_from chosen collected report = record {
    items = collected.items;
    next_cursor = encode_admin_cursor codec report.cursors;
    total = none;
    is_partial = is_nonempty (in_order chosen report.failures);
    failed_providers = in_order chosen report.failures;
    provider_statuses = in_order chosen report.statuses;
  }

  unfoldable pub admin_page : List String → Shown → SimListOut
  unfolding settle_statuses page_from
  admin_page chosen shown =
      page_from chosen shown.collected (settle_statuses chosen shown.collected shown.report)

  -- the answer where there are no credentials
  abbrev pub no_rows : Option Provider → SimListOut
  no_rows provider = record {
    items = [];
    next_cursor = none;
    total = some 0;
    is_partial = false;
    failed_providers = [];
    provider_statuses = map no_credentials_status (chosen_names provider);
  }

  -- The calls get their limits and are answered.
  unfoldable pub finish_rows : Option Provider → ℕ → List (AdminCall Creds) × Report → SimListOut
  unfolding share_rows call_limits merge_rows admin_page value
  finish_rows provider limit (calls, report) =
      let asked = share_rows calls (call_limits (page_size limit) (length calls)) report in
      admin_page (chosen_names provider)
        (merge_rows asked.0 (record { collected = nothing; report = asked.1 }))

  -- `_list_via_admin_credentials`
  unfoldable pub list_via_admin_credentials :
      List CredentialRow → Option String → ℕ → SearchFilters → Option Provider → Result SimListOut
  unfolding active_admin_credential_rows decode_admin_cursor prepare_rows finish_rows value
  list_via_admin_credentials rows cursor limit filters provider =
      let active = active_admin_credential_rows provider rows in
      if not (is_nonempty active)
      then ok (no_rows provider)
      else (prepare_rows filters provider (decode_admin_cursor codec cursor) active no_report
          >>= λ prepared. ok (finish_rows provider limit prepared))
