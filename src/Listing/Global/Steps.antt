-- ===== src/Listing/Global/Steps.antt =====
-- The steps of the listing over all providers, and what they report.
use app_suscriptions_back.Prelude.{
  ℕ, ◌+◌, ◌≡◌, refl, subst, ◌∙◌, String, Bool, true, Option, List, [], ◌∷◌, map, arith, str_eq_refl,
  Bool-cases, inl, inr,
}
use app_suscriptions_back.Errors.{Exception}
use app_suscriptions_back.Dict.{put, get-put}
use app_suscriptions_back.Cursors.{CursorMap}
use app_suscriptions_back.Dispatch.{ProviderStatus, provider_failure, plain_status, not_queried}
use app_suscriptions_back.Filters.Query.Statuses.{IsDistinct}
use app_suscriptions_back.Listing.{Services, Query, Report, set_failure, no_native_listing}
use app_suscriptions_back.Listing.WhenOk.{WhenOk, WhenOk-attempt}
use app_suscriptions_back.Listing.Global.{prepare, is_done}
use app_suscriptions_back.Listing.Global.Pending.{Pending, without, tell}
use app_suscriptions_back.Listing.Global.Narrowed.{Narrowed, told_Narrowed, waiting_Narrowed}

abbrev pub call_names : {Creds : Type 0} → List (Query Creds) → List String
call_names calls = map (λ call. call.name) calls

module _ (names : List String) (once : IsDistinct names) where
  pub fail_Pending :
      (p : String → Bool) (shown : ℕ) (name : String) (e : Exception) (r : Report)
      → Pending names p shown r
      → p name ≡ true
      → Pending names (without name p) shown (set_failure name e r)
  unfolding set_failure
  fail_Pending p shown name e r h free =
      let cursor = (h.fresh name free).2 in
      subst (λ n. Pending names (without name p) n (set_failure name e r)) (omega arith)
        (tell names once p shown r (set_failure name e r) name (provider_failure name e).1 refl refl
          (λ x other. (get-put x name (provider_failure name e).0 r.failures ∙ rw other refl, refl))
          (rw (get-put name name (provider_failure name e).0 r.failures, str_eq_refl name)
            (refl, cursor))
          h free)

  -- a status
  pub status_Pending :
      (p : String → Bool) (shown : ℕ) (name : String) (status : ProviderStatus) (r : Report)
      → status.provider ≡ name
      → Pending names p shown r
      → p name ≡ true
      → Pending names
          (without name p)
          (shown + status.count)
          (record r { statuses = put name status r.statuses })
  status_Pending p shown name status r own h free =
      tell names once p shown r _ name status refl own (λ x other. (refl, refl))
        (rw (h.fresh name free).1 tt) h free

  -- a status and a cursor, where there is one
  pub cursor_Pending :
      (p : String → Bool) (shown : ℕ) (name : String) (status : ProviderStatus)
      (cursor : Option String) (r : Report)
      → status.provider ≡ name
      → Pending names p shown r
      → p name ≡ true
      → Pending names
          (without name p)
          (shown + status.count)
          (record r { statuses = put name status r.statuses; cursors = put name cursor r.cursors })
  cursor_Pending p shown name status cursor r own h free =
      tell names once p shown r _ name status refl own
        (λ x other. (refl, get-put x name cursor r.cursors ∙ rw other refl))
        (rw (h.fresh name free).1 tt) h free

  module _ {Creds : Type 0} (s : Services Creds) (company : ℕ) where
    pub prepare-Narrowed :
        (p : String → Bool) (cursors : Option CursorMap) (name : String) (r : Report)
        → Pending names p 0 r
        → p name ≡ true
        → WhenOk
            (λ prepared. Narrowed names p 0 (name ∷ []) (call_names prepared.0) prepared.1)
            (prepare s company cursors name r)
    unfolding prepare
    prepare-Narrowed p cursors name r h free =
        let failed : (e : Exception) → Narrowed names p 0 (name ∷ []) [] (set_failure name e r) =
          λ e. told_Narrowed names p 0 name _ (fail_Pending p 0 name e r h free) in
        elim (Bool-cases (is_done cursors name)) [
          | inl done ↦
              rw (prepare, done)
                (told_Narrowed names p 0 name _
                  (status_Pending p 0 name (plain_status name not_queried 0) r refl h free))
          | inr left ↦
              rw (prepare, left)
                (WhenOk-attempt _ (s.load_credentials company name) _ _ failed (λ creds loaded.
                  WhenOk-attempt _ (s.registry name) _ _ failed (λ adapter known.
                    elim (Bool-cases adapter.searchable) [
                      | inl lists ↦ rw lists (waiting_Narrowed names p 0 name r h)
                      | inr mute ↦ rw mute (
                          told_Narrowed names p 0 name _
                            (status_Pending p 0 name (no_native_listing name) r refl h free))
                    ])))
        ]
