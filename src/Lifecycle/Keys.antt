-- ===== src/Lifecycle/Keys.antt =====
-- The table of idempotency keys in Lifecycle: which keys are held.
use app_suscriptions_back.Prelude.{
  ℕ, ◌≡◌, refl, Bool, true, false, ◌&&◌, ◌||◌, not, String, List, [], ◌∷◌, ◌++◌, any, filter-append,
  str_eq_refl, ◌*◌, ◌+◌, ap, arith, ◌==◌, ==_iff, str_eq, str_eq_iff,
}
use app_suscriptions_back.Database.{update_where}
use app_suscriptions_back.Lifecycle.{
  IdempotencyKey, processing, has_key, claim, mark_processed, release, is_processing,
}

-- a row holds the key of the company
abbrev pub is_held : String → ℕ → List IdempotencyKey → Bool
is_held key company keys = any (has_key key company) keys

pub any-append :
    {A : Type 0} (sel : A → Bool) (xs ys : List A) → any sel (xs ++ ys) ≡ any sel xs || any sel ys
any-append sel [] ys = refl
any-append sel (x ∷ xs) ys = ground (arith, any-append sel xs ys)

abbrev pub same : String → ℕ → String → ℕ → Bool
same key company k c = str_eq key k && (company == c)

pub is_held-same :
    (key : String) (company : ℕ) (k : String) (c : ℕ) (keys : List IdempotencyKey)
    → same key company k c ≡ true
    → is_held k c keys ≡ is_held key company keys
is_held-same key company k c keys h =
    let key_eq : key ≡ k = ground (arith, str_eq_iff key k) in
    let company_eq : company ≡ c = ground (arith, ==_iff company c) in rw (key_eq, company_eq) refl

-- the row of a new claim
abbrev pub new_key : ℕ → String → ℕ → IdempotencyKey
new_key now key company = record {
  key = key;
  company_id = company;
  response = processing;
  expires_at = now + 24 * 3600 * 1_000_000;
}

append_nil : {A : Type 0} (xs : List A) → xs ++ [] ≡ xs
append_nil [] = refl
append_nil (x ∷ xs) = ap (λ ys. x ∷ ys) (append_nil xs)

release_free :
    (key : String) (company : ℕ) (keys : List IdempotencyKey)
    → is_held key company keys ≡ false
    → release key company keys ≡ keys
unfolding release
release_free key company [] free = refl
release_free key company (row ∷ keys) free = ground (arith, release_free key company keys)

module _ (key : String) (company : ℕ) (k : String) (c : ℕ) where
  pub is_held-claim :
      (now : ℕ) (keys : List IdempotencyKey)
      → is_held k c (claim now key company keys).1 ≡ is_held k c keys || same key company k c
  unfolding claim has_key
  is_held-claim now keys = ground (
    arith,
    any-append (has_key k c) keys (new_key now key company ∷ []),
    λ (h : same key company k c ≡ true). is_held-same key company k c keys h,
  )

  pub is_held-mark_processed :
      (keys : List IdempotencyKey)
      → is_held k c (mark_processed key company keys) ≡ is_held k c keys
  unfolding mark_processed update_where has_key
  is_held-mark_processed [] = refl
  is_held-mark_processed (row ∷ keys) = ground (arith, is_held-mark_processed keys)

  -- releasing a key leaves the others alone
  pub is_held-release :
      (keys : List IdempotencyKey)
      → same key company k c ≡ false
      → is_held k c (release key company keys) ≡ is_held k c keys
  unfolding release has_key
  is_held-release [] other = refl
  is_held-release (row ∷ keys) other = ground (
    arith,
    is_held-release keys other,
    str_eq_iff row.key key,
    str_eq_iff row.key k,
    str_eq_iff key k,
    ==_iff row.company_id company,
    ==_iff row.company_id c,
    ==_iff company c,
  )

-- Releasing a key that was just claimed gives the table before the claim.
pub release-claim :
    (now : ℕ) (key : String) (company : ℕ) (keys : List IdempotencyKey)
    → is_held key company keys ≡ false
    → release key company (claim now key company keys).1 ≡ keys
unfolding release claim has_key
release-claim now key company keys free =
    let held : has_key key company (new_key now key company) ≡ true =
      ground (arith, str_eq_refl key, ==_iff company company) in
    rw free (
      rw
        (filter-append (λ row. not (has_key key company row && is_processing row.response)) keys
          (new_key now key company ∷ []))
        (rw (held, release_free key company keys free, append_nil keys) refl))
