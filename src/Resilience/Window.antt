-- ===== src/Resilience/Window.antt =====
-- The failure window of resilience.py: the deque of failures, and the failures of the window.
use app_suscriptions_back.Prelude.{
  ℕ, ◌+◌, ◌≤◌, ◌≡◌, refl, Bool, not, List, [], ◌∷◌, ◌++◌, ltb, filter, All, All-append, arith,
}
use app_suscriptions_back.Resilience.{drop_expired}

-- Oldest first: each entry is at most every later one.
abbrev pub IsAscending : List ℕ → Type 0
IsAscending [] = Unit
IsAscending (t ∷ ts) = All (λ u. t ≤ u) ts × IsAscending ts

pub IsAscending-concat :
    (ts : List ℕ) (now : ℕ) → IsAscending ts → All (λ u. u ≤ now) ts → IsAscending (ts ++ now ∷ [])
IsAscending-concat [] now h k = (tt, tt)
IsAscending-concat (t ∷ ts) now (h, hs) (k, ks) =
    (All-append (λ u. t ≤ u) ts (now ∷ []) h (k, tt), IsAscending-concat ts now hs ks)

abbrev pub is_recent : ℕ → ℕ → ℕ → Bool
is_recent window now t = not (ltb (t + window) now)

filter-All_recent :
    (window now t : ℕ) (ts : List ℕ)
    → now ≤ t + window
    → All (λ u. t ≤ u) ts
    → filter (is_recent window now) ts ≡ ts
filter-All_recent window now t [] h k = refl
filter-All_recent window now t (u ∷ ts) h (k, ks) =
    ground (arith, filter-All_recent window now t ts h ks)

-- On a deque in the order of time, popping from the left while the head is too old keeps exactly
-- the entries that are not older than the window.
pub drop_expired-eq-filter :
    (window now : ℕ) (ts : List ℕ)
    → IsAscending ts
    → drop_expired window now ts ≡ filter (is_recent window now) ts
unfolding drop_expired
drop_expired-eq-filter window now [] h = refl
drop_expired-eq-filter window now (t ∷ ts) (h, hs) = ground (
  arith,
  drop_expired-eq-filter window now ts hs,
  λ (p : now ≤ t + window). filter-All_recent window now t ts p h,
)

module _ (P : ℕ → Type 0) where
  pub drop_expired-All :
      (window now : ℕ) (ts : List ℕ) → All P ts → All P (drop_expired window now ts)
  unfolding drop_expired
  drop_expired-All window now [] h = tt
  drop_expired-All window now (t ∷ ts) h = ground (arith, drop_expired-All window now ts h.1)

pub drop_expired-IsAscending :
    (window now : ℕ) (ts : List ℕ) → IsAscending ts → IsAscending (drop_expired window now ts)
unfolding drop_expired
drop_expired-IsAscending window now [] h = tt
drop_expired-IsAscending window now (t ∷ ts) h =
    ground (arith, drop_expired-IsAscending window now ts h.1)

-- When nothing is too old, nothing is dropped.
pub drop_expired_recent :
    (window now : ℕ) (ts : List ℕ)
    → All (λ t. now ≤ t + window) ts
    → drop_expired window now ts ≡ ts
unfolding drop_expired
drop_expired_recent window now [] h = refl
drop_expired_recent window now (t ∷ ts) (h, hs) = ground arith
