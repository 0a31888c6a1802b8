-- ===== src/Listing/Global/Routed.antt =====
-- The listing over all providers, and the routing table: what is shown can be looked up.
use app_suscriptions_back.Prelude.{
  ◌≡◌, refl, ap, ℕ, String, Bool, true, false, ◌&&◌, Option, none, some, List, [], ◌∷◌, map, All,
  All-append, Option-cases, inl, inr,
}
use app_suscriptions_back.Errors.{Result, ok, err}
use app_suscriptions_back.Domain.{Page, Subscription, is_nonempty}
use app_suscriptions_back.Normalization.Scalars.{SubscriptionOut}
use app_suscriptions_back.Normalization.Parts.{to_out}
use app_suscriptions_back.Routing.Table.{Table, HasKey}
use app_suscriptions_back.Listing.{SimListOut, Services, Query, response, store_routes, first_fault}
use app_suscriptions_back.Listing.Routed.{
  IsStored, IsFound, store_routes-HasKey, store_routes-append, store_routes-stays,
  store_routes-stores, first_fault-none, committed-IsFound,
}
use app_suscriptions_back.Listing.Global.{
  Merged, merge_answer, merge_answers, list_page, page_of, first, upsert_failure, shown_before,
  show_answer, store_answer,
}
use app_suscriptions_back.Listing.Global.Returned.{list_page-IsMade}

and-true : (b : Bool) → (b && true) ≡ b
and-true true = refl
and-true false = refl

module _ {Creds : Type 0} (s : Services Creds) (company : ℕ) where
  abbrev Stored : Merged → Type 0
  Stored m =
      (m.aborted ≡ false) × HasKey m.table × All (IsStored s.python 0 "" company m.table) m.items

  -- the database takes the upsert of every SIM
  abbrev pub TakesUpserts : Type 0
  TakesUpserts = (sub : Subscription) → s.upsert_fault sub ≡ none

  upsert_failure-none :
      TakesUpserts
      → (aborted : Bool) (subs : List Subscription) → aborted ≡ false
      → upsert_failure s company aborted subs ≡ none
  unfolding upsert_failure
  upsert_failure-none takes aborted [] live = refl
  upsert_failure-none takes true (sub ∷ subs) live = absurd (cc live)
  upsert_failure-none takes false (sub ∷ subs) live =
      first_fault-none s.upsert_fault takes (sub ∷ subs)

  -- what is shown of a stored answer is a part of it
  shown_before-All :
      (P : SubscriptionOut → Type 0) (subs : List Subscription)
      → All P (map (to_out s.python) subs)
      → All P (shown_before s company subs)
  unfolding shown_before
  shown_before-All P [] h = tt
  shown_before-All P (sub ∷ subs) (h, hs) = elim (Option-cases (s.python.fault sub)) [
    | inl fine ↦ rw (shown_before, fine) (h, shown_before-All P subs hs)
    | inr (text, raised) ↦ rw (shown_before, raised) tt
  ]

  show_answer-Stored :
      (name : String) (subs : List Subscription) (next fault : Option String) (m : Merged)
      → Stored m
      → Stored (
          show_answer s company name subs next fault
            (record m { table = store_routes s.python.unicode s.db_now name company subs m.table }))
  unfolding show_answer
  show_answer-Stored name subs next none m (live, key, h) = (
    live,
    store_routes-HasKey s.python s.db_now name company subs m.table key,
    store_routes-append s.python s.db_now name company subs m.table m.items h,
  )
  show_answer-Stored name subs next (some fault) m (live, key, h) = (
    live,
    store_routes-HasKey s.python s.db_now name company subs m.table key,
    All-append _ m.items (shown_before s company subs)
        (store_routes-stays s.python s.db_now name company subs m.table m.items h)
        (shown_before-All _ subs (store_routes-stores s.python s.db_now name company subs m.table)),
  )

  store_answer-Stored :
      (name : String) (subs : List Subscription) (next fault : Option String) (m : Merged)
      → fault ≡ none
      → Stored m
      → Stored (store_answer s company name subs next fault m)
  unfolding store_answer
  store_answer-Stored name subs next none m fine h =
      show_answer-Stored name subs next (first_fault s.python.fault subs) m h
  store_answer-Stored name subs next (some fault) m fine h = absurd (cc fine)

  merge_answer-Stored :
      TakesUpserts
      → (name : String) (answer : Result Page) (m : Merged) → Stored m
      → Stored (merge_answer s company name answer m)
  unfolding merge_answer
  merge_answer-Stored takes name (err e) m h = h
  merge_answer-Stored takes name (ok (subs, next)) m (live, key, h) =
      store_answer-Stored name subs next (upsert_failure s company m.aborted subs) m
        (upsert_failure-none takes m.aborted subs live) (live, key, h)

  merge_answers-Stored :
      TakesUpserts
      → (calls : List (Query Creds)) (m : Merged) → Stored m
      → Stored (merge_answers s company calls m)
  unfolding merge_answers
  merge_answers-Stored takes [] m h = h
  merge_answers-Stored takes (call ∷ calls) m h =
      merge_answers-Stored takes calls _ (merge_answer-Stored takes call.name (response call) m h)

  -- When the database takes the upserts, every SIM that the listing over all providers shows is
  -- afterwards found by the lookup of the other endpoints, as a SIM of the company that asked, also
  -- when the conversion of a SIM raises midway.
  pub list_page-IsFound :
      TakesUpserts
      → (cursor : Option String) (limit : ℕ) (table : Table) (out : SimListOut) → HasKey table
      → (list_page s company cursor limit table).0 ≡ ok out
      → All (IsFound s.python.unicode company (list_page s company cursor limit table).1) out.items
  unfolding page_of
  list_page-IsFound takes cursor limit table out key returned =
      let (plan, planned, made) = list_page-IsMade s company cursor limit table out returned in
      let m = merge_answers s company plan.0 (first s company table plan.1) in
      let (live, key', stored) : Stored m =
        merge_answers-Stored takes plan.0 (first s company table plan.1) (refl, key, tt) in
      rw (ap (λ page. page.items) made.0, made.1, live, and-true (is_nonempty m.items))
        (committed-IsFound s.python company table m.table m.items key' stored)
