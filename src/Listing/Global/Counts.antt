-- ===== src/Listing/Global/Counts.antt =====
-- What a page of the listing over all providers reports: every provider once, with as many SIMs as
-- are shown of it.
use app_suscriptions_back.Prelude.{
  ℕ, ◌≡◌, refl, ap, subst, String, Bool, true, false, Option, List, [], ◌∷◌, ◌++◌, length, arith,
  str_eq, str_eq_refl, str_eq_iff, Bool-cases, inl, inr, ◌==◌,
}
use app_suscriptions_back.Errors.{ok, ◌>>=◌}
use app_suscriptions_back.Cursors.{CursorMap}
use app_suscriptions_back.Dispatch.{plain_status, not_queried}
use app_suscriptions_back.Filters.Query.{is_member}
use app_suscriptions_back.Filters.Query.Statuses.{IsDistinct}
use app_suscriptions_back.Listing.{Services, Query, Report, set_status, set_cursor}
use app_suscriptions_back.Listing.WhenOk.{WhenOk, WhenOk-bind}
use app_suscriptions_back.Listing.Global.{prepare, prepare_all, share}
use app_suscriptions_back.Listing.Global.Pending.{Pending, without}
use app_suscriptions_back.Listing.Global.Narrowed.{
  Narrowed, told_Narrowed, waiting_Narrowed, Narrowed-cons,
}
use app_suscriptions_back.Listing.Global.Steps.{call_names, cursor_Pending, prepare-Narrowed}

call_names-append :
    {Creds : Type 0} (xs ys : List (Query Creds))
    → call_names (xs ++ ys) ≡ call_names xs ++ call_names ys
call_names-append [] ys = refl
call_names-append (x ∷ xs) ys = ap (λ names. x.name ∷ names) (call_names-append xs ys)

-- another name than one that does not stand in the list
pub apart_from :
    (x name : String) (rest : List String)
    → is_member name rest ≡ false
    → is_member x rest ≡ true
    → str_eq name x ≡ false
apart_from x name rest fresh i =
    ground (arith, fresh, i, str_eq_iff name x, λ (e : name ≡ x). ap (λ y. is_member y rest) e)

module _ (names : List String) (once : IsDistinct names) {Creds : Type 0} (s : Services Creds)
    (company : ℕ) where
  pub prepare_all-Narrowed :
      (p : String → Bool) (cursors : Option CursorMap) (asked : List String) (r : Report)
      → IsDistinct asked
      → ((x : String) → is_member x asked ≡ true → p x ≡ true)
      → Pending names p 0 r
      → WhenOk
          (λ prepared. Narrowed names p 0 asked (call_names prepared.0) prepared.1)
          (prepare_all s company cursors asked r)
  unfolding prepare_all is_member
  prepare_all-Narrowed p cursors [] r distinct free h = (p, h, λ x. ground arith, λ x i. cc i, tt)
  prepare_all-Narrowed p cursors (name ∷ rest) r (fresh, distinct) free h =
      WhenOk-bind
        (λ (prepared : List (Query Creds) × Report).
          Narrowed names p 0 (name ∷ []) (call_names prepared.0) prepared.1)
        (λ (prepared : List (Query Creds) × Report).
          Narrowed names p 0 (name ∷ rest) (call_names prepared.0) prepared.1)
        (prepare s company cursors name r)
        (λ (call, r').
          prepare_all s company cursors rest r' >>= λ (calls, r''). ok (call ++ calls, r''))
        (prepare-Narrowed names once s company p cursors name r h
          (free name (ground (arith, str_eq_refl name))))
        (λ (call, r') step.
          WhenOk-bind
            (λ (prepared : List (Query Creds) × Report).
              Narrowed names (step.0) 0 rest (call_names prepared.0) prepared.1)
            (λ (prepared : List (Query Creds) × Report).
              Narrowed names p 0 (name ∷ rest) (call_names prepared.0) prepared.1)
            (prepare_all s company cursors rest r') (λ (calls, r''). ok (call ++ calls, r''))
            (prepare_all-Narrowed (step.0) cursors rest r' distinct
              (λ x i. ground (arith, step.2 x, free x, apart_from x name rest fresh i, i)) step.1)
            (λ (calls, r'') more. rw (call_names-append call calls) (
              Narrowed-cons names p 0 0 name rest (call_names call) (call_names calls) r' r'' fresh
                step more)))

  pub share-Narrowed :
      (p : String → Bool) (shown : ℕ) (calls : List (Query Creds)) (limits : List ℕ) (r : Report)
      → length limits ≡ length calls
      → IsDistinct (call_names calls)
      → ((x : String) → is_member x (call_names calls) ≡ true → p x ≡ true)
      → Pending names p shown r
      → Narrowed names p shown
          (call_names calls)
          (call_names (share s company calls limits r).0)
          (share s company calls limits r).1
  unfolding share is_member
  share-Narrowed p shown [] limits r same distinct free h =
      (p, h, λ x. ground arith, λ x i. cc i, tt)
  share-Narrowed p shown (call ∷ calls) [] r same distinct free h = absurd (omega (arith, same))
  share-Narrowed p shown (call ∷ calls) (limit ∷ limits) r same (fresh, distinct) free h =
      let here : p call.name ≡ true = free call.name (ground (arith, str_eq_refl call.name)) in
      let rest_free : (x : String) → is_member x (call_names calls) ≡ true → p x ≡ true =
        λ x i. free x (ground (arith, i)) in
      elim (Bool-cases (limit == 0)) [
        | inl held ↦
            let r' : Report =
              set_status (plain_status call.name not_queried 0)
                (set_cursor call.name call.cursor r) in
            let step : Narrowed names p shown (call.name ∷ []) [] r' =
              told_Narrowed names p shown call.name r' (
                subst (λ n. Pending names (without call.name p) n r') (omega arith)
                  (cursor_Pending names once p shown call.name
                    (plain_status call.name not_queried 0) call.cursor r refl h here)) in
            rw (share, held)
              (Narrowed-cons names p shown shown call.name (call_names calls) [] _ _ _ fresh step (
                share-Narrowed (step.0) shown calls limits _ (omega (arith, same)) distinct
                  (λ x i. ground (
                    arith,
                    step.2 x,
                    rest_free x i,
                    apart_from x call.name (call_names calls) fresh i,
                  ))
                  step.1))
        | inr asked ↦
            let step : Narrowed names p shown (call.name ∷ []) (call.name ∷ []) r =
              waiting_Narrowed names p shown call.name r h in
            rw (share, asked)
              (Narrowed-cons names p shown shown call.name (call_names calls) (call.name ∷ []) _ _ _
                fresh step
                (share-Narrowed (step.0) shown calls limits r (omega (arith, same)) distinct
                  (λ x i. ground (arith, step.2 x, rest_free x i)) step.1))
      ]
