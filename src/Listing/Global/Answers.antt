-- ===== src/Listing/Global/Answers.antt =====
-- How many SIMs the statuses of a page count, as the answers of the providers come in.
use app_suscriptions_back.Prelude.{
  ℕ, ◌+◌, ◌≤◌, ◌≡◌, refl, String, Bool, true, not, ◌&&◌, Option, none, some, List, [], ◌∷◌, ◌++◌,
  map, length, length-append, length-map, arith, str_eq_refl,
}
use app_suscriptions_back.Errors.{Result, ok, err, other}
use app_suscriptions_back.Domain.{Page, Subscription}
use app_suscriptions_back.Dispatch.{plain_status, answered}
use app_suscriptions_back.Normalization.Parts.{to_out}
use app_suscriptions_back.Filters.Query.{is_member}
use app_suscriptions_back.Filters.Query.Statuses.{IsDistinct}
use app_suscriptions_back.Listing.{Services, Query, response, first_fault}
use app_suscriptions_back.Listing.Routed.{first_fault-none}
use app_suscriptions_back.Listing.Global.{
  Merged, merge_answer, merge_answers, show_answer, store_answer, shown_before, upsert_failure,
}
use app_suscriptions_back.Listing.Global.Pending.{Pending, without}
use app_suscriptions_back.Listing.Global.Steps.{
  call_names, fail_Pending, status_Pending, cursor_Pending,
}
use app_suscriptions_back.Listing.Global.Counts.{apart_from}

module _ (names : List String) (once : IsDistinct names) {Creds : Type 0} (s : Services Creds)
    (company : ℕ) where
  -- no conversion of a SIM raises
  abbrev pub AllConvert : Type 0
  AllConvert = (sub : Subscription) → s.python.fault sub ≡ none

  -- a number of SIMs, and those that are shown
  abbrev pub Fits : ℕ → Merged → Type 0
  Fits n m = (n ≤ length m.items) × (AllConvert → n ≡ length m.items)

  -- what is known after an answer: how many SIMs the statuses count
  abbrev Counted : (String → Bool) → String → Merged → Type 0
  Counted p name m = (n : ℕ) × Pending names (without name p) n m.report × Fits n m

  -- SIMs that are counted and shown
  grown :
      (m : Merged) (n : ℕ) (subs : List Subscription)
      → Fits n m
      → (n + length subs ≤ length (m.items ++ map (to_out s.python) subs))
        × (AllConvert → n + length subs ≡ length (m.items ++ map (to_out s.python) subs))
  grown m n subs (le, eq) = (
    omega (
      arith,
      le,
      length-append m.items (map (to_out s.python) subs),
      length-map (to_out s.python) subs,
    ),
    λ whole. omega (
      arith,
      eq whole,
      length-append m.items (map (to_out s.python) subs),
      length-map (to_out s.python) subs,
    ),
  )

  show_answer-Pending :
      (p : String → Bool) (name : String) (subs : List Subscription) (next fault : Option String)
      (m : Merged) (n : ℕ)
      → first_fault s.python.fault subs ≡ fault
      → p name ≡ true
      → Pending names p n m.report
      → Fits n m
      → Counted p name (show_answer s company name subs next fault m)
  unfolding show_answer
  show_answer-Pending p name subs none none m n fine free h (le, eq) = (
    n + length subs,
    status_Pending names once p n name (plain_status name answered (length subs)) m.report refl h
        free,
    grown m n subs (le, eq),
  )
  show_answer-Pending p name subs (some cursor) none m n fine free h (le, eq) = (
    n + length subs,
    cursor_Pending names once p n name (plain_status name answered (length subs)) (some cursor)
        m.report refl h free,
    grown m n subs (le, eq),
  )
  show_answer-Pending p name subs next (some fault) m n raised free h (le, eq) = (
    n,
    fail_Pending names once p n name (other fault) m.report h free,
    (
      omega (arith, le, length-append m.items (shown_before s company subs)),
      λ whole. absurd (cc (raised, first_fault-none s.python.fault whole subs)),
    ),
  )

  store_answer-Pending :
      (p : String → Bool) (name : String) (subs : List Subscription) (next fault : Option String)
      (m : Merged) (n : ℕ)
      → p name ≡ true
      → Pending names p n m.report
      → Fits n m
      → Counted p name (store_answer s company name subs next fault m)
  unfolding store_answer
  store_answer-Pending p name subs next none m n free h fits =
      show_answer-Pending p name subs next (first_fault s.python.fault subs) _ n refl free h fits
  store_answer-Pending p name subs next (some fault) m n free h fits =
      (n, fail_Pending names once p n name (other fault) m.report h free, fits)

  merge_answer-Pending :
      (p : String → Bool) (name : String) (answer : Result Page) (m : Merged) (n : ℕ)
      → p name ≡ true
      → Pending names p n m.report
      → Fits n m
      → Counted p name (merge_answer s company name answer m)
  unfolding merge_answer
  merge_answer-Pending p name (err e) m n free h fits =
      (n, fail_Pending names once p n name e m.report h free, fits)
  merge_answer-Pending p name (ok (subs, next)) m n free h fits =
      store_answer-Pending p name subs next (upsert_failure s company m.aborted subs) m n free h
        fits

  pub merge_answers-Pending :
      (p : String → Bool) (calls : List (Query Creds)) (m : Merged) (n : ℕ)
      → IsDistinct (call_names calls)
      → ((x : String) → is_member x (call_names calls) ≡ true → p x ≡ true)
      → Pending names p n m.report
      → Fits n m
      → (p' : String → Bool) × (n' : ℕ) × Pending names p' n'
          (merge_answers s company calls m).report
        × Fits n' (merge_answers s company calls m)
        × ((x : String) → p' x ≡ (p x && not (is_member x (call_names calls))))
  unfolding merge_answers is_member
  merge_answers-Pending p [] m n distinct free h fits = (p, n, h, fits, λ x. ground arith)
  merge_answers-Pending p (call ∷ calls) m n (fresh, distinct) free h fits =
      let (n1, h1, fits1) =
        merge_answer-Pending p call.name (response call) m n
          (free call.name (ground (arith, str_eq_refl call.name))) h fits in
      let (p', n', h', fits', rest) =
        merge_answers-Pending (without call.name p) calls
          (merge_answer s company call.name (response call) m) n1 distinct
          (λ x i.
            ground (
              arith,
              free x (ground (arith, i)),
              apart_from x call.name (call_names calls) fresh i,
            ))
          h1 fits1 in
      (p', n', h', fits', λ x. ground (arith, rest x))
