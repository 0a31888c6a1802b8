-- ===== src/Endpoints/Details/Placed.antt =====
-- The resolution of a batch places every SIM once.
use app_suscriptions_back.Prelude.{
  ℕ, ◌+◌, ◌≡◌, refl, sym, ap, subst, ◌⊎◌, inl, inr, String, Bool, true, false, ◌||◌, Option, none,
  some, List, [], ◌∷◌, ◌++◌, map, length, length-append, arith, str_eq, str_eq_iff, str_eq_refl,
  Bool-cases,
}
use app_suscriptions_back.Errors.{Result, ok, err, Exception}
use app_suscriptions_back.Domain.{Subscription}
use app_suscriptions_back.Filters.Query.{is_member}
use app_suscriptions_back.Filters.Query.Statuses.{IsDistinct}
use app_suscriptions_back.Routing.Table.{Route, PrefixRoute}
use app_suscriptions_back.Routing.Resolve.{Request, resolve_routing_or_discover}
use app_suscriptions_back.Listing.{Services}
use app_suscriptions_back.Listing.Iccid.{routing_iccid}
use app_suscriptions_back.Listing.WhenOk.{WhenOk, WhenOk-bind, WhenOk-weaken}
use app_suscriptions_back.Endpoints.Details.{
  Batch, Resolved, is_filtered, is_missing, place, place_result, resolve_batch,
}

-- the SIMs of a batch that were resolved
abbrev pub names_of : Batch → List String
names_of b = map (λ item. item.0) b.resolved

-- how many SIMs a batch has placed, and whether one was
abbrev pub placed : Batch → ℕ
placed b = length b.unresolved + length b.filtered_out + length b.resolved

abbrev pub is_placed : String → Batch → Bool
is_placed x b = is_member x b.unresolved || is_member x b.filtered_out || is_member x (names_of b)

-- one more SIM was placed
abbrev pub OneMore : String → Batch → Batch → Type 0
OneMore iccid b b' =
    (placed b' ≡ placed b + 1)
    × ((x : String) → is_placed x b' ≡ (is_placed x b || str_eq iccid x))
    × ((names_of b' ≡ names_of b) ⊎ (names_of b' ≡ names_of b ++ (iccid ∷ [])))

is_member-append :
    (x iccid : String) (xs : List String)
    → is_member x (xs ++ (iccid ∷ [])) ≡ (is_member x xs || str_eq iccid x)
unfolding is_member
is_member-append x iccid [] = ground arith
is_member-append x iccid (y ∷ xs) = ground (arith, is_member-append x iccid xs)

map-append {ℓ κ} :
    {A : Type ℓ} {B : Type κ} (f : A → B) (xs : List A) (x : A)
    → map f (xs ++ (x ∷ [])) ≡ map f xs ++ (f x ∷ [])
map-append f [] x = refl
map-append f (y ∷ xs) x = ap (λ ys. f y ∷ ys) (map-append f xs x)

IsDistinct-last :
    (xs : List String) (iccid : String)
    → IsDistinct xs
    → is_member iccid xs ≡ false
    → IsDistinct (xs ++ (iccid ∷ []))
unfolding is_member
IsDistinct-last [] iccid h new = (refl, tt)
IsDistinct-last (x ∷ xs) iccid (fresh, h) new = (
  ground (arith, is_member-append x iccid xs, fresh, str_eq_iff iccid x, str_eq_iff x iccid, new),
  IsDistinct-last xs iccid h (ground (arith, new)),
)

module _ {Creds : Type 0} (s : Services Creds) (q : String → Request Creds)
    (text_of : Exception → String) (prefixes : List PrefixRoute) (company : ℕ) where
  resolved-OneMore :
      (iccid name routed : String) (b : Batch)
      → OneMore iccid b (record b { resolved = b.resolved ++ ((iccid, name, routed) ∷ []) })
  resolved-OneMore iccid name routed b =
      let names = map-append (λ (item : Resolved). item.0) b.resolved (iccid, name, routed) in
      (
        omega (arith, length-append b.resolved ((iccid, name, routed) ∷ [])),
        λ x.
            ground (
              arith,
              is_member-append x iccid (names_of b),
              ap (λ iccids. is_member x iccids) names,
            ),
        inr names,
      )

  place-OneMore :
      (allowed : List String) (iccid : String) (found : Route × Option Subscription) (b : Batch)
      → OneMore iccid b (place s q text_of prefixes company allowed iccid found b)
  place-OneMore allowed iccid (route, prefetched) b =
      elim (Bool-cases (is_filtered allowed route.provider)) [
        | inl out ↦ rw out (
          omega (arith, length-append b.filtered_out (iccid ∷ [])),
          λ x. ground (arith, is_member-append x iccid b.filtered_out),
          inl refl,
        )
        | inr kept ↦ rw kept (shown prefetched)
      ]
    where
      shown :
          (prefetched : Option Subscription)
          → OneMore iccid b (record b {
            resolved =
                b.resolved
                ++ (elim prefetched [
                  | some sub ↦ (iccid, sub.provider, sub.iccid)
                  | none ↦ (iccid, route.provider, routing_iccid s company route iccid)
                ]
                    ∷ []);
          })
      shown none = resolved-OneMore iccid _ _ b
      shown (some sub) = resolved-OneMore iccid _ _ b

  place_result-OneMore :
      (allowed : List String) (iccid : String) (found : Result (Route × Option Subscription))
      (b : Batch)
      → WhenOk (OneMore iccid b) (place_result s q text_of prefixes company allowed iccid found b)
  unfolding place_result
  place_result-OneMore allowed iccid (ok found) b = place-OneMore allowed iccid found b
  place_result-OneMore allowed iccid (err e) b = elim (Bool-cases (is_missing e)) [
    | inl missing ↦
        rw (place_result, missing)
          (
            omega (arith, length-append b.unresolved (iccid ∷ [])),
            λ x. ground (arith, is_member-append x iccid b.unresolved),
            inl refl,
          )
    | inr raised ↦ rw (place_result, raised) tt
  ]

  -- all SIMs of a list were placed
  abbrev pub Placed : List String → Batch → Batch → Type 0
  Placed iccids b b' =
      (placed b' ≡ placed b + length iccids)
      × ((x : String) → is_placed x b' ≡ (is_placed x b || is_member x iccids))
      × IsDistinct (names_of b')

  pub resolve_batch-Placed :
      (allowed iccids : List String) (b : Batch)
      → IsDistinct iccids
      → IsDistinct (names_of b)
      → ((x : String) → is_member x iccids ≡ true → is_placed x b ≡ false)
      → WhenOk (Placed iccids b) (resolve_batch s q text_of prefixes company allowed iccids b)
  unfolding resolve_batch is_member
  resolve_batch-Placed allowed [] b once distinct apart = (omega arith, λ x. ground arith, distinct)
  resolve_batch-Placed allowed (iccid ∷ iccids) b (fresh, once) distinct apart =
      let (found, table', cache') =
        resolve_routing_or_discover s.python.unicode (q iccid) prefixes iccid company b.table
          b.cache in
      let start : Batch = record b { table = table'; cache = cache' } in
      let here : is_placed iccid b ≡ false = apart iccid (ground (arith, str_eq_refl iccid)) in
      WhenOk-bind (OneMore iccid start) (Placed (iccid ∷ iccids) b)
        (place_result s q text_of prefixes company allowed iccid found start)
        (λ b'. resolve_batch s q text_of prefixes company allowed iccids b')
        (place_result-OneMore allowed iccid found start)
        (λ b' (size, known, names).
          let distinct' : IsDistinct (names_of b') = elim names [
            | inl same ↦ subst IsDistinct (sym same) distinct
            | inr longer ↦
                subst IsDistinct (sym longer)
                  (IsDistinct-last (names_of b) iccid distinct (ground (arith, here)))
          ] in
          let apart' : (x : String) → is_member x iccids ≡ true → is_placed x b' ≡ false = λ x i.
            ground (
              arith,
              known x,
              apart x (ground (arith, i)),
              str_eq_iff iccid x,
              λ (e : iccid ≡ x). ap (λ y. is_member y iccids) e,
              fresh,
              i,
            ) in
          WhenOk-weaken (Placed iccids b') (Placed (iccid ∷ iccids) b)
            (resolve_batch s q text_of prefixes company allowed iccids b')
            (resolve_batch-Placed allowed iccids b' once distinct' apart')
            (λ b'' (size', known', last).
              (omega (arith, size, size'), λ x. ground (arith, known x, known' x), last)))
