-- ===== src/Dispatch/Limits.antt =====
-- The split of a page limit: `_global_provider_call_limits`.
use native.Mathlib.Nat.{div-add-mod, mod-lt}
use app_suscriptions_back.Prelude.{
  ℕ, zero, suc, ◌+◌, ◌*◌, ◌/◌, ◌%◌, ◌-◌, ◌≤◌, ◌<◌, ◌≡◌, refl, List, [], ◌∷◌, arith, length, All,
  min,
}
use app_suscriptions_back.Dispatch.{limits_from, call_limits}

unfoldable pub sum : List ℕ → ℕ
sum [] = 0
sum (x ∷ xs) = x + sum xs

length-limits_from : (base remainder index n : ℕ) → length (limits_from base remainder index n) ≡ n
unfolding limits_from
length-limits_from base remainder index zero = refl
length-limits_from base remainder index (suc n) =
    omega (arith, length-limits_from base remainder (suc index) n)

-- the indices that get one more are those below the remainder
sum-limits_from :
    (base remainder index n : ℕ)
    → sum (limits_from base remainder index n) ≡ n * base + min n (remainder - index)
unfolding limits_from sum
sum-limits_from base remainder index zero = omega arith
sum-limits_from base remainder index (suc n) =
    grind (arith, sum-limits_from base remainder (suc index) n)

limits_from-bounds :
    (base remainder index n : ℕ)
    → All (λ limit. (base ≤ limit) × (limit ≤ base + 1)) (limits_from base remainder index n)
unfolding limits_from
limits_from-bounds base remainder index zero = tt
limits_from-bounds base remainder index (suc n) =
    (ground arith, limits_from-bounds base remainder (suc index) n)

-- The calls of a page get limits that add up to the page limit, one for each call, and no two of
-- them differ by more than one.
pub call_limits_share :
    (page_limit n : ℕ)
    → 0 < n
    → (length (call_limits page_limit n) ≡ n)
      × (sum (call_limits page_limit n) ≡ page_limit)
      × All
          (λ limit. (page_limit / n ≤ limit) × (limit ≤ page_limit / n + 1))
          (call_limits page_limit n)
unfolding call_limits
call_limits_share page_limit zero h = absurd (omega arith)
call_limits_share page_limit (suc n) h = (
  length-limits_from (page_limit / suc n) (page_limit % suc n) 0 (suc n),
  grind (
    arith,
    sum-limits_from (page_limit / suc n) (page_limit % suc n) 0 (suc n),
    div-add-mod page_limit (suc n),
    mod-lt page_limit {m = suc n} h,
  ),
  limits_from-bounds (page_limit / suc n) (page_limit % suc n) 0 (suc n),
)

pub length-call_limits : (page_limit n : ℕ) → length (call_limits page_limit n) ≡ n
unfolding call_limits
length-call_limits page_limit zero = refl
length-call_limits page_limit (suc n) =
    length-limits_from (page_limit / suc n) (page_limit % suc n) 0 (suc n)

pub sum-call_limits-le : (page_limit n : ℕ) → sum (call_limits page_limit n) ≤ page_limit
unfolding call_limits sum
sum-call_limits-le page_limit zero = omega arith
sum-call_limits-le page_limit (suc n) =
    omega (arith, (call_limits_share page_limit (suc n) (omega arith)).1)
