-- ===== src/Listing/WhenOk.antt =====
-- Reasoning on results: what holds of the value of a call that returns.
use app_suscriptions_back.Prelude.{◌≡◌, refl, subst, ap, Bool, true, false, if◌then◌else◌}
use app_suscriptions_back.Errors.{
  Result, ok, err, ◌>>=◌, Exception, domain, http, timeout, other, cancelled,
}
use app_suscriptions_back.Listing.{attempt}

abbrev pub WhenOk {ℓ κ} : {A : Type ℓ} → (A → Type κ) → Result A → Type κ
WhenOk P (ok a) = P a
WhenOk P (err e) = Unit

module _ {ℓ κ} {A : Type ℓ} (P : A → Type κ) where
  pub WhenOk-value : (r : Result A) (a : A) → r ≡ ok a → WhenOk P r → P a
  WhenOk-value r a e h = subst (WhenOk P) e h

  module _ {ℓ' κ'} {B : Type ℓ'} (Q : B → Type κ') where
    pub WhenOk-bind :
        (r : Result A) (after : A → Result B)
        → WhenOk P r
        → ((a : A) → P a → WhenOk Q (after a))
        → WhenOk Q (r >>= after)
    WhenOk-bind (ok a) after h k = k a h
    WhenOk-bind (err e) after h k = tt

module _ {ℓ ℓ' κ} {A : Type ℓ} {B : Type ℓ'} (Q : B → Type κ) where
  pub WhenOk-attempt :
      (r : Result A) (handle : Exception → Result B) (after : A → Result B)
      → ((e : Exception) → WhenOk Q (handle e))
      → ((a : A) → r ≡ ok a → WhenOk Q (after a))
      → WhenOk Q (attempt r handle after)
  WhenOk-attempt (ok a) handle after h k = k a refl
  WhenOk-attempt (err cancelled) handle after h k = tt
  WhenOk-attempt (err (domain e)) handle after h k = h (domain e)
  WhenOk-attempt (err (http status detail)) handle after h k = h (http status detail)
  WhenOk-attempt (err timeout) handle after h k = h timeout
  WhenOk-attempt (err (other text)) handle after h k = h (other text)

-- the value of a result that is no error
pub ok-injective {ℓ} : {A : Type ℓ} (fallback : A) {a b : A} → ok a ≡ ok b → a ≡ b
ok-injective fallback e = ap (λ r. elim r [ ok x ↦ x | err _ ↦ fallback ]) e

pub WhenOk-map {ℓ ℓ' κ} :
    {A : Type ℓ} {B : Type ℓ'} (Q : B → Type κ) (r : Result A) (f : A → B)
    → ((a : A) → Q (f a))
    → WhenOk Q (r >>= λ a. ok (f a))
WhenOk-map Q (ok a) f h = h a
WhenOk-map Q (err e) f h = tt

pub WhenOk-weaken {ℓ κ κ'} :
    {A : Type ℓ} (P : A → Type κ) (Q : A → Type κ') (r : Result A)
    → WhenOk P r
    → ((a : A) → P a → Q a)
    → WhenOk Q r
WhenOk-weaken P Q (ok a) h k = k a h
WhenOk-weaken P Q (err e) h k = tt

pub WhenOk-then {ℓ ℓ' κ} :
    {A : Type ℓ} {B : Type ℓ'} (Q : B → Type κ) (r : Result A) (after : A → Result B)
    → ((a : A) → WhenOk Q (after a))
    → WhenOk Q (r >>= after)
WhenOk-then Q (ok a) after h = h a
WhenOk-then Q (err e) after h = tt

pub WhenOk-both {ℓ κ κ'} :
    {A : Type ℓ} (P : A → Type κ) (Q : A → Type κ') (r : Result A)
    → WhenOk P r
    → WhenOk Q r
    → WhenOk (λ a. P a × Q a) r
WhenOk-both P Q (ok a) h k = (h, k)
WhenOk-both P Q (err e) h k = tt

pub WhenOk-if {ℓ κ} :
    {A : Type ℓ} (Q : A → Type κ) (b : Bool) (x y : Result A)
    → WhenOk Q x
    → WhenOk Q y
    → WhenOk Q (if b then x else y)
WhenOk-if Q true x y h k = h
WhenOk-if Q false x y h k = k
