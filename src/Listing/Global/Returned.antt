-- ===== src/Listing/Global/Returned.antt =====
-- What a page of the listing over all providers is made of, when it is no error.
use app_suscriptions_back.Prelude.{
  ◌≡◌, refl, sym, String, ℕ, false, not, ◌&&◌, Option, List, if◌then◌else◌, Bool-cases, inl, inr,
}
use app_suscriptions_back.Errors.{ok, Result-cases}
use app_suscriptions_back.Domain.{is_nonempty}
use app_suscriptions_back.Routing.Table.{Table}
use app_suscriptions_back.Listing.{SimListOut, Services, Query, Report, in_order}
use app_suscriptions_back.Listing.WhenOk.{ok-injective}
use app_suscriptions_back.Listing.Global.{
  Merged, names, page_of, conclude_listing, plan_page, list_page, merge_answers, first,
}

module _ {Creds : Type 0} (s : Services Creds) (company : ℕ) where
  -- a page was made of what was merged
  abbrev pub IsMade : SimListOut → Table → Table → Merged → Type 0
  IsMade out before after m =
      (out ≡ page_of s company m)
      × (after ≡ (if is_nonempty m.items && not m.aborted then m.table else before))
      × ((not (is_nonempty m.items) && is_nonempty (in_order names m.report.failures)) ≡ false)

  conclude_listing-IsMade :
      (table : Table) (m : Merged) (out : SimListOut)
      → (conclude_listing s company table m).0 ≡ ok out
      → IsMade out table (conclude_listing s company table m).1 m
  unfolding conclude_listing
  conclude_listing-IsMade table m out returned =
      elim (Bool-cases
        (not (is_nonempty m.items) && is_nonempty (in_order names m.report.failures))) [
          | inl nothing ↦ cc (rw nothing at returned)
          | inr found ↦ rw found (sym (ok-injective out (rw found at returned)), refl, refl)
        ]

  pub list_page-IsMade :
      (cursor : Option String) (limit : ℕ) (table : Table) (out : SimListOut)
      → (list_page s company cursor limit table).0 ≡ ok out
      → (plan : List (Query Creds) × Report) × (plan_page s company cursor limit ≡ ok plan)
        × IsMade out table
            (list_page s company cursor limit table).1
            (merge_answers s company plan.0 (first s company table plan.1))
  unfolding list_page
  list_page-IsMade cursor limit table out returned =
      elim (Result-cases (plan_page s company cursor limit)) [
        | inl (e, failed) ↦ cc (rw (list_page, failed) at returned)
        | inr (plan, planned) ↦ (
          plan,
          planned,
          rw (list_page, planned)
              (conclude_listing-IsMade table
                (merge_answers s company plan.0 (first s company table plan.1)) out
                (rw (list_page, planned) at returned)),
        )
      ]
