-- ===== src/Filters/Shortcut.antt =====
-- The shortcut of `_apply_post_filters`: filters that it takes as not needed would keep everything.
use app_suscriptions_back.Prelude.{
  ◌≡◌, refl, sym, true, false, List, [], ◌∷◌, filter, Bool-cases, inl, inr, arith, Bool,
}
use app_suscriptions_back.Domain.{Subscription, SearchFilters}
use app_suscriptions_back.Normalization.{Python}
use app_suscriptions_back.Filters.{
  requires_post_filter, imei_matches, operator_matches, imsi_matches, asked_service, lu_since,
  lu_till, custom_matches, post_filter_matches, apply_post_filters,
}

module _ (python : Python) where
  kept_without_filters :
      (f : SearchFilters) (sub : Subscription)
      → requires_post_filter f ≡ false
      → post_filter_matches python f sub ≡ true
  unfolding requires_post_filter post_filter_matches imei_matches operator_matches imsi_matches
      asked_service lu_since lu_till custom_matches
  kept_without_filters f sub h = ground arith

  filter_all :
      (p : Subscription → Bool) (subs : List Subscription)
      → ((sub : Subscription) → p sub ≡ true)
      → filter p subs ≡ subs
  filter_all p [] h = refl
  filter_all p (sub ∷ subs) h = ground (arith, filter_all p subs h, h sub)

  -- Whatever the filters, also none that the service checks itself, what a search keeps of a page is
  -- what `_post_filter_matches` accepts, in the order of the page.
  pub apply_post_filters-eq-filter :
      (f : SearchFilters) (subs : List Subscription)
      → apply_post_filters python f subs ≡ filter (post_filter_matches python f) subs
  unfolding apply_post_filters
  apply_post_filters-eq-filter f subs = elim (Bool-cases (requires_post_filter f)) [
    | inl needed ↦ rw needed refl
    | inr skipped ↦ rw skipped (sym (filter_all _ subs (λ sub. kept_without_filters f sub skipped)))
  ]
