-- ===== src/Stats.antt =====
-- app/subscriptions/services/stats.py: counting a provider's SIMs page by page, and merging the
-- counts of several providers.
use Prim.Native.String.{◌++◌ as append}
use app_suscriptions_back.Prelude.{
  ℕ, zero, suc, ◌+◌, String, Bool, true, false, Option, none, some, List, [], ◌∷◌, ◌==◌, ltb,
  str_eq, if◌then◌else◌,
}
use app_suscriptions_back.Errors.{
  Result, ok, err, ◌>>=◌, domain, string, listing_precondition_failed,
}
use app_suscriptions_back.Domain.{Subscription, SearchFilters, Page, Adapter, is_text}
use app_suscriptions_back.Dict.{Dict, get, put}
use app_suscriptions_back.Normalization.{Python, get_field}
use app_suscriptions_back.Normalization.Scalars.{status_group, parse_any_dt}
use app_suscriptions_back.Normalization.Parts.{normalized_subscription}
use app_suscriptions_back.Filters.{apply_post_filters, part}
use app_suscriptions_back.Listing.{Services}
use app_suscriptions_back.Listing.Credentials.{admin_effective_filters}
pub mod Merge
pub mod Pages
mod Tests

pub record Stats : Type 0 where
  pub total : ℕ
  pub by_status : Dict ℕ
  pub by_status_group : Dict ℕ
  pub stale_lu_count : ℕ

abbrev pub no_stats : Stats
no_stats = record { total = 0; by_status = []; by_status_group = []; stale_lu_count = 0 }

-- `d[key] = d.get(key, 0) + n`
unfoldable pub add_count : String → ℕ → Dict ℕ → Dict ℕ
unfolding get put
add_count key n d = put key (elim (get key d) [ none ↦ n | some old ↦ old + n ]) d

-- `_STATS_MAX_PAGES`, `_STATS_PAGE_LIMIT`
abbrev pub max_pages : ℕ
max_pages = 100

abbrev pub stats_page_limit : ℕ
stats_page_limit = 500

-- `last_lu is None or last_lu < stale_threshold`
abbrev pub is_stale_lu : ℕ → Option ℕ → Bool
is_stale_lu threshold none = true
is_stale_lu threshold (some at) = ltb at threshold

module _ (python : Python) (stale_threshold : ℕ) where
  -- `_stats_add_sub`
  unfoldable pub add_sub_stats : Subscription → Stats → Stats
  unfolding add_count status_group normalized_subscription part get_field parse_any_dt
  add_sub_stats sub stats =
      let network = part "network" (normalized_subscription python sub) in
      let last_lu = parse_any_dt python (get_field "last_lu_at" network) in
      record {
        total = stats.total + 1;
        by_status =
            add_count (if str_eq sub.status "" then "UNKNOWN" else sub.status) 1 stats.by_status;
        by_status_group = add_count (status_group python sub.status) 1 stats.by_status_group;
        stale_lu_count =
            if is_stale_lu stale_threshold last_lu
            then stats.stale_lu_count + 1
            else stats.stale_lu_count;
      }

  unfoldable pub add_subs_stats : List Subscription → Stats → Stats
  unfolding add_sub_stats
  add_subs_stats [] stats = stats
  add_subs_stats (sub ∷ subs) stats = add_subs_stats subs (add_sub_stats sub stats)

  module _ {Creds : Type 0} (adapter : Adapter Creds) (creds : Creds)
      (filters : SearchFilters) where
    -- `adapter.list_subscriptions(creds, cursor=cursor, limit=_STATS_PAGE_LIMIT, …)`
    abbrev pub stats_page : Option String → Result Page
    stats_page cursor = adapter.list_subscriptions creds cursor stats_page_limit filters

    -- The loop over the pages, of which `n` may still be read.
    unfoldable pub count_pages : ℕ → Option String → Stats → Result (Stats × Bool)
    unfolding apply_post_filters add_subs_stats
    count_pages zero cursor stats = ok (stats, false)
    count_pages (suc n) cursor stats = stats_page cursor >>= λ (subs, next).
        let stats' = add_subs_stats (apply_post_filters python filters subs) stats in
        let rest = count_pages n next stats' in
        if is_text next then (if n == 0 then ok (stats', true) else rest) else ok (stats', false)

  -- `_collect_provider_stats_with_credentials`; its filters are those of an administrator's listing
  -- over all providers, field by field.
  unfoldable pub collect_stats :
      {Creds : Type 0} → SearchFilters → Adapter Creds → Creds → Result (Stats × Bool)
  unfolding admin_effective_filters count_pages
  collect_stats filters adapter creds =
      count_pages adapter creds (admin_effective_filters adapter filters true) max_pages none
        no_stats

  -- `_collect_provider_stats`
  unfoldable pub collect_provider_stats :
      {Creds : Type 0} → Services Creds → String → SearchFilters → ℕ → Result (Stats × Bool)
  unfolding collect_stats
  collect_provider_stats s name filters company = s.registry name >>= λ adapter.
      if adapter.searchable
      then (s.load_credentials company name >>= λ creds. collect_stats filters adapter creds)
      else err (
          domain (record {
            kind = listing_precondition_failed;
            detail = some (append "Provider '" (append name "' does not expose native listing."));
            extra =
                ("provider", string name)
                ∷ ("missing_capability", string "SearchableProvider")
                ∷ [];
          }))

-- the counts of one dict added to another
unfoldable pub add_counts : Dict ℕ → Dict ℕ → Dict ℕ
unfolding add_count
add_counts base [] = base
add_counts base ((key, n) ∷ extra) = add_counts (add_count key n base) extra

-- `_merge_stats`
unfoldable pub merge_stats : Stats → Stats → Stats
unfolding add_counts
merge_stats base extra = record {
  total = base.total + extra.total;
  by_status = add_counts base.by_status extra.by_status;
  by_status_group = add_counts base.by_status_group extra.by_status_group;
  stale_lu_count = base.stale_lu_count + extra.stale_lu_count;
}
