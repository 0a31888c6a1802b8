-- ===== src/Endpoints/Details/Results.antt =====
-- The results of a batch and their summary.
use app_suscriptions_back.Prelude.{
  ℕ, ◌+◌, ◌≡◌, refl, ap, ◌∙◌, String, true, false, ◌||◌, List, [], ◌∷◌, map, length, arith,
  str_eq_iff, str_eq_refl,
}
use app_suscriptions_back.Dict.{Dict, has, put, has-put}
use app_suscriptions_back.Filters.Query.{is_member}
use app_suscriptions_back.Filters.Query.Statuses.{IsDistinct}
use app_suscriptions_back.Endpoints.Details.{
  DetailsItem, DetailStatus, fetched, not_found, timed_out, failed_call, rate_limited, Summary,
  count_status, count_statuses, collect_results,
}

-- the SIMs that a summary counts
abbrev pub counted : Summary → ℕ
counted sum =
    sum.ok_count + sum.not_found_count + sum.timeout_count + sum.rate_limited_count
    + sum.error_count

counted-count_status :
    (status : DetailStatus) (sum : Summary)
    → (counted (count_status status sum) ≡ counted sum + 1)
      × ((count_status status sum).total ≡ sum.total)
unfolding count_status
counted-count_status fetched sum = (omega arith, refl)
counted-count_status not_found sum = (omega arith, refl)
counted-count_status timed_out sum = (omega arith, refl)
counted-count_status failed_call sum = (omega arith, refl)
counted-count_status rate_limited sum = (omega arith, refl)

pub counted-count_statuses :
    (results : Dict DetailsItem) (sum : Summary)
    → (counted (count_statuses results sum) ≡ counted sum + length results)
      × ((count_statuses results sum).total ≡ sum.total)
unfolding count_statuses
counted-count_statuses [] sum = (omega arith, refl)
counted-count_statuses ((iccid, item) ∷ results) sum =
    let rest = counted-count_statuses results (count_status item.status sum) in
    let one = counted-count_status item.status sum in (omega (arith, rest.0, one.0), rest.1 ∙ one.1)

length-put :
    {V : Type 0} (key : String) (v : V) (d : Dict V)
    → has key d ≡ false
    → length (put key v d) ≡ length d + 1
unfolding put has
length-put key v [] h = omega arith
length-put key v ((k, w) ∷ d) h = ground (arith, length-put key v d)

-- the SIMs of some items
abbrev pub iccids_of : List (String × DetailsItem) → List String
iccids_of items = map (λ item. item.0) items

pub collect_results-keeps :
    (items : List (String × DetailsItem)) (d : Dict DetailsItem)
    → IsDistinct (iccids_of items)
    → ((x : String) → is_member x (iccids_of items) ≡ true → has x d ≡ false)
    → (length (collect_results items d) ≡ length items + length d)
      × ((x : String)
          → has x (collect_results items d) ≡ (has x d || is_member x (iccids_of items)))
unfolding collect_results is_member
collect_results-keeps [] d once apart = (omega arith, λ x. ground arith)
collect_results-keeps ((iccid, item) ∷ items) d (fresh, once) apart =
    let new : has iccid d ≡ false = apart iccid (ground (arith, str_eq_refl iccid)) in
    let rest = collect_results-keeps items (put iccid item d) once (λ x i. ground (
      arith,
      has-put x iccid item d,
      apart x (ground (arith, i)),
      str_eq_iff iccid x,
      λ (e : iccid ≡ x). ap (λ y. is_member y (iccids_of items)) e,
      fresh,
      i,
    )) in
    (
      omega (arith, rest.0, length-put iccid item d new),
      λ x. ground (arith, rest.1 x, has-put x iccid item d),
    )
