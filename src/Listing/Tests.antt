-- ===== src/Listing/Tests.antt =====
-- Listings of a small company, at a provider that knows one SIM.
use app_suscriptions_back.Prelude.{
  ℕ, ◌≤◌, ◌≡◌, ◌≤◌, refl, false, not, ◌&&◌, none, [], ◌∷◌, map, length, All, arith, ltb,
  if◌then◌else◌, str_eq, Bool-cases, inl, inr, ap, subst,
}
use app_suscriptions_back.Errors.{ok}
use app_suscriptions_back.Domain.{is_nonempty, value}
use app_suscriptions_back.Cursors.{CursorMap, encode_global_cursor, decode_global_cursor}
use app_suscriptions_back.Dict.{get, put}
use app_suscriptions_back.Dispatch.{call_limits, limits_from}
use app_suscriptions_back.Dispatch.Limits.{sum}
use app_suscriptions_back.Routing.Text.{ascii}
use app_suscriptions_back.Listing.{SimListOut, page_size, in_order, set_failure, first_fault}
use app_suscriptions_back.Listing.Fixtures.{empty_codec, sim, kite_adapter, services, returned}
use app_suscriptions_back.Listing.WhenOk.{ok-injective}
use app_suscriptions_back.Listing.Routed.{IsFound}
use app_suscriptions_back.Listing.Global.{
  names, list_page, plan_page, prepare, prepare_all, share, merge_answer, merge_answers,
  conclude_listing, store_answer, show_answer, upsert_failure, shown_before,
}
use app_suscriptions_back.Listing.Global.Size.{KeepsLimit, AllKeepLimit, list_page-size}
use app_suscriptions_back.Listing.Global.Routed.{list_page-IsFound}
use app_suscriptions_back.Listing.Global.Reported.{
  list_page-reports, list_page-counts, list_page-forgets,
}

-- the first page of the listing over all providers
abbrev first_page : SimListOut
first_page = returned (list_page services 7 none 50 []).0

first_page_returns : (list_page services 7 none 50 []).0 ≡ ok first_page
unfolding list_page plan_page prepare prepare_all share merge_answer store_answer show_answer
    upsert_failure first_fault shown_before merge_answers conclude_listing in_order set_failure
    decode_global_cursor value call_limits limits_from get put
first_page_returns = refl

list_page-IsFound_example :
    All (IsFound ascii 7 (list_page services 7 none 50 []).1) first_page.items
list_page-IsFound_example =
    list_page-IsFound services 7 (λ sub. refl) none 50 [] first_page tt first_page_returns

list_page-reports_example :
    (map (λ status. status.provider) first_page.provider_statuses ≡ names)
    × (sum (map (λ status. status.count) first_page.provider_statuses) ≤ length first_page.items)
    × ((not (is_nonempty first_page.items) && is_nonempty first_page.failed_providers) ≡ false)
list_page-reports_example = list_page-reports services 7 none 50 [] first_page first_page_returns

list_page-counts_example :
    sum (map (λ status. status.count) first_page.provider_statuses) ≡ length first_page.items
list_page-counts_example =
    list_page-counts services 7 (λ sub. refl) none 50 [] first_page first_page_returns

list_page-forgets_example :
    (next : CursorMap) × (first_page.next_cursor ≡ encode_global_cursor empty_codec next)
    × All (λ failure. get failure.provider next ≡ none) first_page.failed_providers
list_page-forgets_example = list_page-forgets services 7 none 50 [] first_page first_page_returns

one_sim_kept : (limit : ℕ) → length (if ltb 0 limit then sim ∷ [] else []) ≤ limit
one_sim_kept limit = ground arith

kite_keeps : KeepsLimit kite_adapter
kite_keeps creds cursor limit filters page some_asked answer =
    omega (arith, one_sim_kept limit, ap (λ answered. length answered.0) (ok-injective page answer))

all_keep : AllKeepLimit services 7
all_keep name adapter known = elim (Bool-cases (str_eq name "kite")) [
  | inl is_kite ↦ subst KeepsLimit (ok-injective adapter (rw is_kite at known)) kite_keeps
  | inr is_other ↦ cc (rw is_other at known)
]

list_page-size_example : length first_page.items ≤ page_size 50
list_page-size_example = list_page-size services 7 all_keep none 50 [] first_page first_page_returns
