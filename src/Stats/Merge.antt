-- ===== src/Stats/Merge.antt =====
-- The counts of SIMs add up: by status, by group, and when they are merged.
use app_suscriptions_back.Prelude.{ℕ, ◌+◌, ◌≤◌, ◌≡◌, String, List, [], ◌∷◌, arith}
use app_suscriptions_back.Domain.{Subscription}
use app_suscriptions_back.Dict.{Dict, get, put}
use app_suscriptions_back.Normalization.{Python}
use app_suscriptions_back.Stats.{
  Stats, add_count, add_sub_stats, add_subs_stats, add_counts, merge_stats,
}

-- the sum of the counts
unfoldable pub count_all : Dict ℕ → ℕ
count_all [] = 0
count_all ((key, n) ∷ d) = n + count_all d

count_all-add_count :
    (key : String) (n : ℕ) (d : Dict ℕ) → count_all (add_count key n d) ≡ count_all d + n
unfolding count_all add_count get put
count_all-add_count key n [] = omega arith
count_all-add_count key n ((k, old) ∷ d) = ground (arith, count_all-add_count key n d)

count_all-add_counts :
    (base extra : Dict ℕ) → count_all (add_counts base extra) ≡ count_all base + count_all extra
unfolding count_all add_counts
count_all-add_counts base [] = omega arith
count_all-add_counts base ((key, n) ∷ extra) =
    omega (arith, count_all-add_counts (add_count key n base) extra, count_all-add_count key n base)

-- Every SIM is counted once by its status and once by its group, and no more are stale than there
-- are.
abbrev pub IsBalanced : Stats → Type 0
IsBalanced stats =
    (count_all stats.by_status ≡ stats.total)
    × (count_all stats.by_status_group ≡ stats.total)
    × (stats.stale_lu_count ≤ stats.total)

add_sub_stats-IsBalanced :
    (python : Python) (threshold : ℕ) (sub : Subscription) (stats : Stats)
    → IsBalanced stats
    → IsBalanced (add_sub_stats python threshold sub stats)
unfolding add_sub_stats
add_sub_stats-IsBalanced python threshold sub stats (status, group, stale) = (
  omega (arith, status, count_all-add_count _ 1 stats.by_status),
  omega (arith, group, count_all-add_count _ 1 stats.by_status_group),
  ground (arith, stale),
)

pub add_subs_stats-IsBalanced :
    (python : Python) (threshold : ℕ) (subs : List Subscription) (stats : Stats)
    → IsBalanced stats
    → IsBalanced (add_subs_stats python threshold subs stats)
unfolding add_subs_stats
add_subs_stats-IsBalanced python threshold [] stats h = h
add_subs_stats-IsBalanced python threshold (sub ∷ subs) stats h =
    add_subs_stats-IsBalanced python threshold subs _
      (add_sub_stats-IsBalanced python threshold sub stats h)

-- Merging the counts of two providers, in each of which every SIM is counted once by its status and
-- once by its group and no more are stale than there are, gives counts of which the same holds.
pub merge_stats-IsBalanced :
    (base extra : Stats) → IsBalanced base → IsBalanced extra → IsBalanced (merge_stats base extra)
unfolding merge_stats
merge_stats-IsBalanced base extra (s, g, l) (s', g', l') = (
  omega (arith, s, s', count_all-add_counts base.by_status extra.by_status),
  omega (arith, g, g', count_all-add_counts base.by_status_group extra.by_status_group),
  omega (arith, l, l'),
)
