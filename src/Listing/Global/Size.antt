-- ===== src/Listing/Global/Size.antt =====
-- How many SIMs a page of the listing over all providers has.
use app_suscriptions_back.Prelude.{
  ℕ, ◌+◌, ◌≤◌, ◌≡◌, ap, String, Option, none, some, Option-cases, ==_iff, List, [], ◌∷◌, map,
  length, length-append, length-map, arith, ◌==◌, All, All-append, Bool-cases, inl, inr,
}
use app_suscriptions_back.Errors.{ok, Result-cases}
use app_suscriptions_back.Domain.{SearchFilters, Page, Adapter, Subscription}
use app_suscriptions_back.Cursors.{CursorMap, decode_global_cursor}
use app_suscriptions_back.Normalization.Parts.{to_out}
use app_suscriptions_back.Dispatch.{call_limits}
use app_suscriptions_back.Dispatch.Limits.{sum, sum-call_limits-le}
use app_suscriptions_back.Routing.Table.{Table}
use app_suscriptions_back.Listing.{
  SimListOut, Services, Query, response, Report, page_size, no_report, first_fault,
}
use app_suscriptions_back.Listing.WhenOk.{WhenOk, WhenOk-value, WhenOk-bind, WhenOk-attempt}
use app_suscriptions_back.Listing.Global.{
  Merged, prepare, prepare_all, share, merge_answer, merge_answers, plan_page, list_page, is_done,
  first, share_page, names, shown_before, show_answer, store_answer, upsert_failure,
}
use app_suscriptions_back.Listing.Global.Returned.{list_page-IsMade}

-- An adapter that gives no more subscriptions than it is asked for, when it is asked for any.
abbrev pub KeepsLimit : {Creds : Type 0} → Adapter Creds → Type 0
KeepsLimit {Creds} adapter =
    (creds : Creds) (cursor : Option String) (limit : ℕ) (filters : SearchFilters) (page : Page)
    → 1 ≤ limit
    → adapter.list_subscriptions creds cursor limit filters ≡ ok page
    → length page.0 ≤ limit

module _ {Creds : Type 0} (s : Services Creds) (company : ℕ) where
  abbrev Kept : List (Query Creds) → Type 0
  Kept = All (λ call. KeepsLimit call.adapter)

  -- every adapter of the registry keeps its limit
  abbrev pub AllKeepLimit : Type 0
  AllKeepLimit =
      (name : String) (adapter : Adapter Creds) → s.registry name ≡ ok adapter → KeepsLimit adapter

  -- every call asks for at least one SIM
  abbrev AllAsk : List (Query Creds) → Type 0
  AllAsk = All (λ call. 1 ≤ call.limit)

  prepare-Kept :
      AllKeepLimit
      → (cursors : Option CursorMap) (name : String) (report : Report)
      → WhenOk (λ prepared. Kept prepared.0) (prepare s company cursors name report)
  unfolding prepare
  prepare-Kept h cursors name report = elim (Bool-cases (is_done cursors name)) [
    | inl done ↦ rw done tt
    | inr left ↦ rw left (
        WhenOk-attempt _ (s.load_credentials company name) _ _ (λ e. tt)
          (λ creds loaded.
            WhenOk-attempt _ (s.registry name) _ _ (λ e. tt)
              (λ adapter known. elim (Bool-cases adapter.searchable) [
                | inl lists ↦ rw lists (h name adapter known, tt)
                | inr mute ↦ rw mute tt
              ])))
  ]

  prepare_all-Kept :
      AllKeepLimit
      → (cursors : Option CursorMap) (asked : List String) (report : Report)
      → WhenOk (λ prepared. Kept prepared.0) (prepare_all s company cursors asked report)
  unfolding prepare_all
  prepare_all-Kept h cursors [] report = tt
  prepare_all-Kept h cursors (name ∷ rest) report =
      WhenOk-bind _ _ (prepare s company cursors name report) _ (prepare-Kept h cursors name report)
        (λ (call, report') kept.
          WhenOk-bind _ _ (prepare_all s company cursors rest report') _
            (prepare_all-Kept h cursors rest report')
            (λ (calls, report'') kept'. All-append _ call calls kept kept'))

  -- the SIMs that some calls ask for
  total_asked : List (Query Creds) → ℕ
  total_asked [] = 0
  total_asked (call ∷ calls) = call.limit + total_asked calls

  share-Kept :
      (calls : List (Query Creds)) (limits : List ℕ) (report : Report)
      → Kept calls
      → Kept (share s company calls limits report).0
        × AllAsk (share s company calls limits report).0
        × (total_asked (share s company calls limits report).0 ≤ sum limits)
  unfolding share total_asked sum
  share-Kept [] limits report h = (tt, tt, omega arith)
  share-Kept (call ∷ calls) [] report h = (tt, tt, omega arith)
  share-Kept (call ∷ calls) (limit ∷ limits) report (keeps, h) = elim (Bool-cases (limit == 0)) [
    | inl held ↦
        let rest = share-Kept calls limits _ h in rw held (rest.0, rest.1, omega (arith, rest.2))
    | inr asked ↦
        let rest = share-Kept calls limits report h in
        rw asked
          ((keeps, rest.0), (ground (arith, asked, ==_iff limit 0), rest.1), omega (arith, rest.2))
  ]

  shown_before-size :
      (subs : List Subscription) → length (shown_before s company subs) ≤ length subs
  unfolding shown_before
  shown_before-size [] = omega arith
  shown_before-size (sub ∷ subs) = elim (Option-cases (s.python.fault sub)) [
    | inl fine ↦ rw (shown_before, fine) (omega (arith, shown_before-size subs))
    | inr (text, raised) ↦ rw (shown_before, raised) (omega arith)
  ]

  show_answer-size :
      (name : String) (subs : List Subscription) (next fault : Option String) (m : Merged)
      → length (show_answer s company name subs next fault m).items ≤ length m.items + length subs
  unfolding show_answer
  show_answer-size name subs next none m =
      omega (
        arith,
        length-append m.items (map (to_out s.python) subs),
        length-map (to_out s.python) subs,
      )
  show_answer-size name subs next (some fault) m =
      omega (arith, length-append m.items (shown_before s company subs), shown_before-size subs)

  store_answer-size :
      (name : String) (subs : List Subscription) (next fault : Option String) (m : Merged)
      → length (store_answer s company name subs next fault m).items ≤ length m.items + length subs
  unfolding store_answer
  store_answer-size name subs next none m =
      show_answer-size name subs next (first_fault s.python.fault subs) _
  store_answer-size name subs next (some fault) m = omega arith

  merge_answer-size :
      (call : Query Creds) (m : Merged)
      → KeepsLimit call.adapter
      → 1 ≤ call.limit
      → length (merge_answer s company call.name (response call) m).items
        ≤ length m.items + call.limit
  unfolding merge_answer
  merge_answer-size call m h asks = elim (Result-cases (response call)) [
    | inl (e, failed) ↦ rw failed (omega arith)
    | inr (page, answered) ↦ rw answered (
        omega (
          arith,
          store_answer-size call.name page.0 page.1 (upsert_failure s company m.aborted page.0) m,
          h call.creds call.cursor call.limit call.filters page asks answered,
        ))
  ]

  merge_answers-size :
      (calls : List (Query Creds)) (m : Merged)
      → Kept calls
      → AllAsk calls
      → length (merge_answers s company calls m).items ≤ length m.items + total_asked calls
  unfolding merge_answers total_asked
  merge_answers-size [] m h k = omega arith
  merge_answers-size (call ∷ calls) m (keeps, h) (asks, k) = omega (
    arith,
    merge_answer-size call m keeps asks,
    merge_answers-size calls (merge_answer s company call.name (response call) m) h k,
  )

  plan_page-size :
      AllKeepLimit
      → (cursor : Option String) (limit : ℕ)
      → WhenOk
          (λ plan. Kept plan.0 × AllAsk plan.0 × (total_asked plan.0 ≤ page_size limit))
          (plan_page s company cursor limit)
  unfolding plan_page
  plan_page-size h cursor limit =
      WhenOk-bind (λ (prepared : List (Query Creds) × Report). Kept prepared.0)
        (λ (plan : List (Query Creds) × Report).
          Kept plan.0 × AllAsk plan.0 × (total_asked plan.0 ≤ page_size limit))
        _ (λ prepared. ok (share_page s company limit prepared))
        (prepare_all-Kept h (decode_global_cursor s.codec cursor) names no_report)
        (λ (calls, report) kept.
          let shared =
            share-Kept calls (call_limits (page_size limit) (length calls)) report kept in
          (
            shared.0,
            shared.1,
            omega (arith, shared.2, sum-call_limits-le (page_size limit) (length calls)),
          ))

  -- No page of the listing over all providers has more SIMs than its limit, brought between 1 and
  -- 500, when every registered adapter gives at most as many as it is asked for, asked for at least one.
  pub list_page-size :
      AllKeepLimit
      → (cursor : Option String) (limit : ℕ) (table : Table) (out : SimListOut)
      → (list_page s company cursor limit table).0 ≡ ok out
      → length out.items ≤ page_size limit
  unfolding list_page
  list_page-size h cursor limit table out returned =
      let (plan, planned, made) = list_page-IsMade s company cursor limit table out returned in
      let sized : Kept plan.0 × AllAsk plan.0 × (total_asked plan.0 ≤ page_size limit) =
        WhenOk-value _ (plan_page s company cursor limit) plan planned
          (plan_page-size h cursor limit) in
      omega (
        arith,
        ap (λ page. length page.items) made.0,
        merge_answers-size plan.0 (first s company table plan.1) sized.0 sized.1,
        sized.2,
      )
