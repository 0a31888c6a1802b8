-- ===== src/Listing/AdminOnce.antt =====
-- The listings of administrators show no SIM twice.
use app_suscriptions_back.Prelude.{
  ◌≡◌, refl, ℕ, ◌==◌, String, not, Option, none, List, [], ◌∷◌, All, All-append, Bool-cases, inl,
  inr, length,
}
use app_suscriptions_back.Errors.{Result, ok, err}
use app_suscriptions_back.Domain.{Page, SearchFilters, Provider, is_nonempty}
use app_suscriptions_back.Cursors.{CursorMap, decode_admin_cursor, admin_cursor_key}
use app_suscriptions_back.Dispatch.{call_limits}
use app_suscriptions_back.Listing.Global.{is_done}
use app_suscriptions_back.Filters.{apply_post_filters}
use app_suscriptions_back.Listing.{SimListOut, Services, Report, response, page_size, no_report}
use app_suscriptions_back.Listing.WhenOk.{WhenOk, WhenOk-bind, WhenOk-attempt, WhenOk-value}
use app_suscriptions_back.Listing.Collect.{set_error, nothing}
use app_suscriptions_back.Listing.Collect.Once.{
  CollectedOnce, IsShownOnce, add_subs-CollectedOnce, AllNameSims, IsNamed, AnswersOf,
  response-AnswersOf, apply_post_filters-AllOf, collected-IsShownOnce,
}
use app_suscriptions_back.Listing.Credentials.{CredentialRow, active_admin_credential_rows}
use app_suscriptions_back.Listing.Admin.{
  AdminCall, Shown, item_key, merge_row, merge_rows, admin_page, page_from, finish_rows, share_rows,
  prepare_row, prepare_rows, list_via_admin_credentials,
}

module _ {Creds : Type 0} (s : Services Creds) where
  abbrev PageOnce : SimListOut → Type 0
  PageOnce page = IsShownOnce s.python (item_key s) page.items

  abbrev AllNamed : List (AdminCall Creds) → Type 0
  AllNamed = All (λ call. IsNamed call.query)

  prepare_row-AllNamed :
      AllNameSims s
      → (filters : SearchFilters) (provider : Option Provider) (cursors : Option CursorMap)
        (row : CredentialRow) (report : Report)
      → WhenOk
          (λ (prepared : List (AdminCall Creds) × Report). AllNamed prepared.0)
          (prepare_row s filters provider cursors row report)
  unfolding prepare_row
  prepare_row-AllNamed h filters provider cursors row report =
      elim (Bool-cases
        (is_done cursors (admin_cursor_key s.python.id_text row.company_id row.provider none))) [
          | inl done ↦ rw (prepare_row, done) tt
          | inr left ↦
              rw (prepare_row, left)
                (WhenOk-attempt _ (s.registry row.provider) _ _ (λ e. tt)
                  (λ adapter known. elim (Bool-cases (not adapter.searchable)) [
                    | inl mute ↦ rw mute tt
                    | inr lists ↦ rw lists (
                        WhenOk-attempt _ (s.load_credentials row.company_id row.provider) _ _
                          (λ e. tt) (λ creds loaded. (h row.provider adapter known, tt)))
                  ]))
        ]

  prepare_rows-AllNamed :
      AllNameSims s
      → (filters : SearchFilters) (provider : Option Provider) (cursors : Option CursorMap)
        (rows : List CredentialRow) (report : Report)
      → WhenOk
          (λ (prepared : List (AdminCall Creds) × Report). AllNamed prepared.0)
          (prepare_rows s filters provider cursors rows report)
  unfolding prepare_rows
  prepare_rows-AllNamed h filters provider cursors [] report = tt
  prepare_rows-AllNamed h filters provider cursors (row ∷ rows) report =
      WhenOk-bind _ _ (prepare_row s filters provider cursors row report) _
        (prepare_row-AllNamed h filters provider cursors row report)
        (λ (call, report') named.
          WhenOk-bind _ _ (prepare_rows s filters provider cursors rows report') _
            (prepare_rows-AllNamed h filters provider cursors rows report')
            (λ (calls, report'') named'. All-append _ call calls named named'))

  share_rows-AllNamed :
      (calls : List (AdminCall Creds)) (limits : List ℕ) (report : Report)
      → AllNamed calls
      → AllNamed (share_rows s calls limits report).0
  unfolding share_rows
  share_rows-AllNamed [] limits report h = tt
  share_rows-AllNamed (call ∷ calls) [] report h = tt
  share_rows-AllNamed (call ∷ calls) (limit ∷ limits) report (h, hs) =
      elim (Bool-cases (limit == 0)) [
        | inl held ↦ rw held (share_rows-AllNamed calls limits _ hs)
        | inr asked ↦ rw asked (h, share_rows-AllNamed calls limits report hs)
      ]

  merge_row-Once :
      (call : AdminCall Creds) (answer : Result Page) (shown : Shown)
      → AnswersOf call.query.name answer
      → CollectedOnce s.python (item_key s) shown.collected
      → CollectedOnce s.python (item_key s) (merge_row s call answer shown).collected
  unfolding merge_row set_error
  merge_row-Once call (err e) shown own h = h
  merge_row-Once call (ok (raw, next)) shown own h =
      add_subs-CollectedOnce s.python (item_key s) call.query.name
        (apply_post_filters s.python call.query.filters raw) shown.collected
        (apply_post_filters-AllOf s.python call.query.filters call.query.name raw own) h

  pub merge_rows-Once :
      (calls : List (AdminCall Creds)) (shown : Shown)
      → AllNamed calls
      → CollectedOnce s.python (item_key s) shown.collected
      → CollectedOnce s.python (item_key s) (merge_rows s calls shown).collected
  unfolding merge_rows
  merge_rows-Once [] shown named h = h
  merge_rows-Once (call ∷ calls) shown (named, all_named) h =
      merge_rows-Once calls _ all_named
        (merge_row-Once call (response call.query) shown (response-AnswersOf call.query named) h)

  finish_rows-Once :
      (provider : Option Provider) (limit : ℕ) (prepared : List (AdminCall Creds) × Report)
      → AllNamed prepared.0
      → IsShownOnce s.python (item_key s) (finish_rows s provider limit prepared).items
  unfolding finish_rows admin_page page_from
  finish_rows-Once provider limit (calls, report) named =
      let asked = share_rows s calls (call_limits (page_size limit) (length calls)) report in
      let start : Shown = record { collected = nothing; report = asked.1 } in
      collected-IsShownOnce s.python (item_key s) (merge_rows s asked.0 start).collected (
        merge_rows-Once asked.0 start
          (share_rows-AllNamed calls (call_limits (page_size limit) (length calls)) report named)
          (tt, refl))

  WhenOk-listing :
      AllNameSims s
      → (rows : List CredentialRow) (cursor : Option String) (limit : ℕ) (filters : SearchFilters)
        (provider : Option Provider)
      → WhenOk PageOnce (list_via_admin_credentials s rows cursor limit filters provider)
  unfolding list_via_admin_credentials
  WhenOk-listing h rows cursor limit filters provider =
      elim (Bool-cases (not (is_nonempty (active_admin_credential_rows provider rows)))) [
        | inl nobody ↦ rw (list_via_admin_credentials, nobody) tt
        | inr somebody ↦
            rw (list_via_admin_credentials, somebody)
              (WhenOk-bind (λ (prepared : List (AdminCall Creds) × Report). AllNamed prepared.0)
                PageOnce
                (prepare_rows s filters provider (decode_admin_cursor s.codec cursor)
                  (active_admin_credential_rows provider rows) no_report)
                (λ prepared. ok (finish_rows s provider limit prepared))
                (prepare_rows-AllNamed h filters provider (decode_admin_cursor s.codec cursor)
                  (active_admin_credential_rows provider rows) no_report)
                (finish_rows-Once provider limit))
      ]

  -- When every registered adapter gives SIMs under its provider's name, no page of an administrator's
  -- listing shows two SIMs with the same company, provider and ICCID, however many answers a SIM is in.
  pub list_via_admin_credentials-Once :
      AllNameSims s
      → (rows : List CredentialRow) (cursor : Option String) (limit : ℕ) (filters : SearchFilters)
        (provider : Option Provider) (out : SimListOut)
      → list_via_admin_credentials s rows cursor limit filters provider ≡ ok out
      → IsShownOnce s.python (item_key s) out.items
  list_via_admin_credentials-Once h rows cursor limit filters provider out returned =
      WhenOk-value PageOnce _ out returned (WhenOk-listing h rows cursor limit filters provider)
