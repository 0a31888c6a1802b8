-- ===== src/Listing/Global/Pending.antt =====
-- Which providers a listing still has to report on. Each is reported on once: its status is set when
-- it has none, and its SIMs are counted there.
use app_suscriptions_back.Prelude.{
  ℕ, ◌+◌, ◌≡◌, refl, ap, subst, ◌∙◌, String, Bool, true, false, not, ◌&&◌, Option, none, some, List,
  [], ◌∷◌, arith, str_eq, str_eq_iff, str_eq_refl, Bool-cases, inl, inr,
}
use app_suscriptions_back.Dict.{Dict, get, put, get-put}
use app_suscriptions_back.Dispatch.{Failure, ProviderStatus}
use app_suscriptions_back.Filters.Query.{is_member}
use app_suscriptions_back.Filters.Query.Statuses.{IsDistinct}
use app_suscriptions_back.Listing.{Report}

abbrev pub count_in : Option ProviderStatus → ℕ
count_in none = 0
count_in (some status) = status.count

-- the SIMs that the statuses of some providers count
unfoldable pub total : List String → Dict ProviderStatus → ℕ
unfolding get
total [] d = 0
total (name ∷ names) d = count_in (get name d) + total names d

total-put_other :
    (names : List String) (name : String) (status : ProviderStatus) (d : Dict ProviderStatus)
    → is_member name names ≡ false
    → total names (put name status d) ≡ total names d
unfolding total is_member
total-put_other [] name status d h = refl
total-put_other (n ∷ names) name status d h = ground (
  arith,
  total-put_other names name status d,
  get-put n name status d,
  str_eq_iff n name,
  str_eq_iff name n,
)

total-put :
    (names : List String) (name : String) (status : ProviderStatus) (d : Dict ProviderStatus)
    → IsDistinct names
    → is_member name names ≡ true
    → get name d ≡ none
    → total names (put name status d) ≡ status.count + total names d
unfolding total is_member
total-put [] name status d once h new = cc
total-put (n ∷ names) name status d (fresh, once) h new = elim (Bool-cases (str_eq n name)) [
  | inl same ↦
      let e : n ≡ name = (str_eq_iff n name).0 same in
      ground (
        arith,
        total-put_other names name status d (subst (λ k. is_member k names ≡ false) e fresh),
        get-put n name status d,
        e,
        new,
        str_eq_refl name,
      )
  | inr other ↦ ground (
    arith,
    total-put names name status d once,
    get-put n name status d,
    str_eq_iff n name,
    str_eq_iff name n,
    h,
    new,
  )
]

-- nothing is known of a provider
abbrev pub Fresh : String → Report → Type 0
Fresh x r = (get x r.statuses ≡ none) × (get x r.failures ≡ none) × (get x r.cursors ≡ none)

-- a failure is the provider's own, and leaves no cursor for it
abbrev pub IsLost : String → Option Failure → Option (Option String) → Type 0
IsLost x none cursor = Unit
IsLost x (some failure) cursor = (failure.provider ≡ x) × (cursor ≡ none)

-- a provider has its status
abbrev pub Told : String → Report → Type 0
Told x r =
    (status : ProviderStatus) × (get x r.statuses ≡ some status)
    × (status.provider ≡ x)
    × IsLost x (get x r.failures) (get x r.cursors)

-- Of the providers with `p` nothing is known; the others have their statuses, which count `shown`
-- SIMs.
pub record Pending (names : List String) (p : String → Bool) (shown : ℕ) (r : Report) : Type 0 where
  pub fresh : (x : String) → p x ≡ true → Fresh x r
  pub told : (x : String) → p x ≡ false → is_member x names ≡ true → Told x r
  pub counted : total names r.statuses ≡ shown
  pub inside : (x : String) → p x ≡ true → is_member x names ≡ true

-- the other providers
abbrev pub without : String → (String → Bool) → String → Bool
without name p x = p x && not (str_eq name x)

module _ (names : List String) (once : IsDistinct names) where
  -- A provider is reported on.
  pub tell :
      (p : String → Bool) (shown : ℕ) (r r' : Report) (name : String) (status : ProviderStatus)
      → r'.statuses ≡ put name status r.statuses
      → status.provider ≡ name
      → ((x : String)
          → str_eq name x ≡ false
          → (get x r'.failures ≡ get x r.failures) × (get x r'.cursors ≡ get x r.cursors))
      → IsLost name (get name r'.failures) (get name r'.cursors)
      → Pending names p shown r
      → p name ≡ true
      → Pending names (without name p) (shown + status.count) r'
  tell p shown r r' name status set own kept lost h free = record {
    fresh = λ x q.
        let other : str_eq name x ≡ false = ground (arith, q) in
        let known = h.fresh x (ground (arith, q)) in
        let (failure, cursor) = kept x other in
        (
          ap (get x) set ∙ get-put x name status r.statuses ∙ rw other known.0,
          failure ∙ known.1,
          cursor ∙ known.2,
        );
    told = λ x q i. elim (Bool-cases (str_eq name x)) [
      | inl same ↦
          subst (λ y. Told y r') ((str_eq_iff name x).0 same)
            (
              status,
              ap (get name) set ∙ get-put name name status r.statuses ∙ rw (str_eq_refl name) refl,
              own,
              lost,
            )
      | inr other ↦
          let (old, found, its, state) = h.told x (ground (arith, q, other)) i in
          let (failure, cursor) = kept x other in
          (
            old,
            ap (get x) set ∙ get-put x name status r.statuses ∙ rw other found,
            its,
            rw (failure, cursor) state,
          )
    ];
    counted =
        ap (total names) set
        ∙ total-put names name status r.statuses once (h.inside name free) (h.fresh name free).0
        ∙ omega (arith, h.counted);
    inside = λ x q. h.inside x (ground (arith, q));
  }
