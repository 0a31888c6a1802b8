-- ===== src/Stats/Pages.antt =====
-- The loop over a provider's pages ends with the counts of its SIMs.
use app_suscriptions_back.Prelude.{
  ℕ, zero, suc, ◌≤◌, ◌≡◌, refl, String, true, false, Option, none, List, [], ◌∷◌, length, arith,
  ltb, ◌==◌,
}
use app_suscriptions_back.Errors.{ok}
use app_suscriptions_back.Domain.{Subscription, SearchFilters, Adapter, is_text}
use app_suscriptions_back.Normalization.{Python}
use app_suscriptions_back.Filters.{apply_post_filters}
use app_suscriptions_back.Listing.Credentials.{admin_effective_filters}
use app_suscriptions_back.Stats.{Stats, no_stats, count_pages, collect_stats, add_subs_stats}

-- The pages of a provider's listing from a cursor to the last one, whose cursor is empty.
pub data Pages {Creds : Type 0} (adapter : Adapter Creds) (creds : Creds) (filters : SearchFilters)
    : Option String → List (List Subscription) → Type 0 where
  last :
      {cursor : Option String} {next : Option String} {subs : List Subscription}
      → adapter.list_subscriptions creds cursor 500 filters ≡ ok (subs, next)
      → is_text next ≡ false
      → Pages adapter creds filters cursor (subs ∷ [])
  more :
      {cursor : Option String} {next : Option String} {subs : List Subscription}
      {rest : List (List Subscription)}
      → adapter.list_subscriptions creds cursor 500 filters ≡ ok (subs, next)
      → is_text next ≡ true
      → Pages adapter creds filters next rest
      → Pages adapter creds filters cursor (subs ∷ rest)

not_zero : (n : ℕ) → (suc n == 0) ≡ false
not_zero n = ground arith

not_beyond : (n : ℕ) → ltb (suc n) 1 ≡ false
not_beyond n = ground arith

beyond : (n m : ℕ) → suc n ≤ m → ltb (suc n) (suc m) ≡ true
beyond n m h = ground (arith, h)

beyond_suc : (n m : ℕ) → ltb (suc (suc n)) (suc m) ≡ ltb (suc n) m
beyond_suc n m = ground arith

module _ (python : Python) (threshold : ℕ) {Creds : Type 0} (adapter : Adapter Creds)
    (creds : Creds) (filters : SearchFilters) where
  -- the counts of the SIMs of the first `n` pages that the filters keep
  abbrev pub add_pages : ℕ → List (List Subscription) → Stats → Stats
  add_pages zero pages stats = stats
  add_pages (suc n) [] stats = stats
  add_pages (suc n) (subs ∷ pages) stats =
      add_pages n pages
        (add_subs_stats python threshold (apply_post_filters python filters subs) stats)

  add_pages-nil : (n : ℕ) (stats : Stats) → add_pages n [] stats ≡ stats
  add_pages-nil zero stats = refl
  add_pages-nil (suc n) stats = refl

  some_page :
      {cursor : Option String} (pages : List (List Subscription))
      → Pages adapter creds filters cursor pages
      → 1 ≤ length pages
  some_page _ (Pages.last {subs = subs} answer end) = omega arith
  some_page _ (Pages.more {rest = rest} answer next walk) = omega arith

  count_pages-Pages :
      (n : ℕ) (cursor : Option String) (pages : List (List Subscription)) (stats : Stats)
      → Pages adapter creds filters cursor pages
      → count_pages python threshold adapter creds filters (suc n) cursor stats
        ≡ ok (add_pages (suc n) pages stats, ltb (suc n) (length pages))
  unfolding count_pages
  count_pages-Pages n cursor _ stats (Pages.last {subs = subs} answer end) =
      let counted =
        add_subs_stats python threshold (apply_post_filters python filters subs) stats in
      rw (count_pages, answer, end, add_pages-nil n counted, not_beyond n) refl
  count_pages-Pages zero cursor _ stats (Pages.more {subs = subs} {rest = rest} answer next walk) =
      rw (count_pages, answer, next, beyond 0 (length rest) (some_page rest walk)) refl
  count_pages-Pages (suc n) cursor _ stats
        (Pages.more {subs = subs} {rest = rest} answer next walk) =
      rw (count_pages, answer, next, not_zero n, beyond_suc n (length rest))
        (count_pages-Pages n _ rest
          (add_subs_stats python threshold (apply_post_filters python filters subs) stats) walk)

-- Counting a provider whose pages come to an end, ends: with the counts of what the filters keep of
-- its first 100 pages, marked as partial exactly when there are more.
pub collect_stats-Pages :
    {Creds : Type 0} (python : Python) (threshold : ℕ) (filters : SearchFilters)
    (adapter : Adapter Creds) (creds : Creds) (pages : List (List Subscription))
    → Pages adapter creds (admin_effective_filters adapter filters true) none pages
    → collect_stats python threshold filters adapter creds
      ≡ ok (
        add_pages python threshold adapter creds
            (admin_effective_filters adapter filters true)
            100
            pages
            no_stats,
        ltb 100 (length pages),
      )
unfolding collect_stats
collect_stats-Pages python threshold filters adapter creds pages walk =
    count_pages-Pages python threshold adapter creds (admin_effective_filters adapter filters true)
      99 none pages no_stats walk
