-- ===== src/Listing/Global/Narrowed.antt =====
-- Steps of a listing over some of the providers: which are still to be reported on afterwards.
use app_suscriptions_back.Prelude.{
  ℕ, ◌≡◌, refl, ap, String, Bool, true, false, not, ◌&&◌, ◌||◌, List, [], ◌∷◌, ◌++◌, arith,
  str_eq_iff, str_eq_refl,
}
use app_suscriptions_back.Filters.Query.{is_member}
use app_suscriptions_back.Filters.Query.Statuses.{IsDistinct}
use app_suscriptions_back.Listing.{Report}
use app_suscriptions_back.Listing.Global.Pending.{Pending, without}

-- What is left to report on, after a step over the providers `ns` of which `left` wait.
abbrev pub Narrowed :
    List String → (String → Bool) → ℕ → List String → List String → Report → Type 0
Narrowed names p shown ns left r =
    (p' : String → Bool) × Pending names p' shown r
    × ((x : String) → p' x ≡ (p x && (not (is_member x ns) || is_member x left)))
    × ((x : String) → is_member x left ≡ true → is_member x ns ≡ true)
    × IsDistinct left

is_member-append :
    (x : String) (xs ys : List String) → is_member x (xs ++ ys) ≡ (is_member x xs || is_member x ys)
unfolding is_member
is_member-append x [] ys = refl
is_member-append x (y ∷ xs) ys = ground (arith, is_member-append x xs ys)

IsDistinct-append :
    (xs ys : List String)
    → IsDistinct xs
    → IsDistinct ys
    → ((x : String) → is_member x xs ≡ true → is_member x ys ≡ false)
    → IsDistinct (xs ++ ys)
unfolding is_member
IsDistinct-append [] ys h k apart = k
IsDistinct-append (x ∷ xs) ys (fresh, h) k apart = (
  ground (arith, is_member-append x xs ys, fresh, apart x, str_eq_refl x),
  IsDistinct-append xs ys h k (λ y i. apart y (ground (arith, i))),
)

module _ (names : List String) where
  -- a provider that was reported on
  pub told_Narrowed :
      (p : String → Bool) (shown : ℕ) (name : String) (r : Report)
      → Pending names (without name p) shown r
      → Narrowed names p shown (name ∷ []) [] r
  unfolding is_member
  told_Narrowed p shown name r h = (without name p, h, λ x. ground arith, λ x i. cc i, tt)

  -- a provider that waits
  pub waiting_Narrowed :
      (p : String → Bool) (shown : ℕ) (name : String) (r : Report)
      → Pending names p shown r
      → Narrowed names p shown (name ∷ []) (name ∷ []) r
  unfolding is_member
  waiting_Narrowed p shown name r h = (p, h, λ x. ground arith, λ x i. i, (refl, tt))

  -- a step over one provider, and steps over the others
  pub Narrowed-cons :
      (p : String → Bool) (before after : ℕ) (name : String) (rest first later : List String)
      (r r' : Report)
      → is_member name rest ≡ false
      → (step : Narrowed names p before (name ∷ []) first r)
      → Narrowed names (step.0) after rest later r'
      → Narrowed names p after (name ∷ rest) (first ++ later) r'
  unfolding is_member
  Narrowed-cons p before after name rest first later r r' apart (q, h, q-eq, inside, once)
        (q', h', q'-eq, inside', once') =
      (
        q',
        h',
        λ x. ground (
          arith,
          q-eq x,
          q'-eq x,
          inside x,
          inside' x,
          is_member-append x first later,
          str_eq_iff name x,
          λ (e : name ≡ x). ap (λ y. is_member y rest) e,
          apart,
        ),
        λ x i. ground (arith, inside x, inside' x, is_member-append x first later, i),
        IsDistinct-append first later once once' (λ x i. ground (
          arith,
          inside x i,
          inside' x,
          str_eq_iff name x,
          λ (e : name ≡ x). ap (λ y. is_member y rest) e,
          apart,
        )),
      )
