-- ===== src/Routing/Text.antt =====
-- ICCIDs as texts: `_normalize_iccid_for_routing`, and `… or iccid.strip()`. Which characters are
-- digits and which are spaces is Python's Unicode table, a parameter here.
use Prim.Native.Char.{Char, code}
use app_suscriptions_back.Prelude.{
  ℕ, suc, zero, ◌≡◌, refl, ap, Bool, true, false, ◌&&◌, Option, none, some, String, arith, ltb, leb,
  ◌==◌, if◌then◌else◌, Bool-cases, inl, inr,
}

pub record Unicode : Type 0 where
  pub is_digit : Char → Bool
  pub is_space : Char → Bool

-- The digits and spaces of ASCII, for concrete texts.
abbrev pub ascii : Unicode
ascii = record { is_digit = λ c. leb 48 (code c) && ltb (code c) 58; is_space = λ c. code c == 32 }

-- `len(text)`, in characters
unfoldable pub count : String → ℕ
count String.[] = 0
count (String.◌∷◌ c s) = suc (count s)

-- a text is false in Python when it is empty
abbrev pub is_blank : String → Bool
is_blank String.[] = true
is_blank (String.◌∷◌ c s) = false

pub is_blank-eq : (s : String) → is_blank s ≡ true → s ≡ String.[]
is_blank-eq String.[] h = refl
is_blank-eq (String.◌∷◌ c s) h = cc

abbrev tail_of : String → String
tail_of String.[] = String.[]
tail_of (String.◌∷◌ c s) = s

-- `text[:n]`
unfoldable pub take : ℕ → String → String
take zero s = String.[]
take (suc n) String.[] = String.[]
take (suc n) (String.◌∷◌ c s) = String.◌∷◌ c (take n s)

module _ (u : Unicode) where
  open u use {is_digit, is_space}

  -- `re.sub(r"\D+", "", text)`
  unfoldable pub normalize_iccid : String → String
  normalize_iccid String.[] = String.[]
  normalize_iccid (String.◌∷◌ c s) =
      if is_digit c then String.◌∷◌ c (normalize_iccid s) else normalize_iccid s

  unfoldable pub strip_left : String → String
  strip_left String.[] = String.[]
  strip_left (String.◌∷◌ c s) = if is_space c then strip_left s else String.◌∷◌ c s

  unfoldable pub strip_right : String → String
  strip_right String.[] = String.[]
  strip_right (String.◌∷◌ c s) =
      let rest = strip_right s in
      if is_space c && is_blank rest then String.[] else String.◌∷◌ c rest

  unfoldable pub strip : String → String
  unfolding strip_left strip_right
  strip s = strip_left (strip_right s)

  -- `_normalize_iccid_for_routing(iccid) or iccid.strip()`
  unfoldable pub route_iccid : String → String
  route_iccid s = let digits = normalize_iccid s in if is_blank digits then strip s else digits

  -- `_iccid_routing_prefix`, with `_ICCID_ROUTING_PREFIX_LENGTH` = 6
  unfoldable pub routing_prefix : String → Option String
  routing_prefix s =
      let digits = normalize_iccid s in if ltb (count digits) 6 then none else some (take 6 digits)

  pub normalize_idempotent : (s : String) → normalize_iccid (normalize_iccid s) ≡ normalize_iccid s
  unfolding normalize_iccid
  normalize_idempotent String.[] = refl
  normalize_idempotent (String.◌∷◌ c s) = ground (arith, normalize_idempotent s)

  no_digit :
      (c : Char) (s : String)
      → is_blank (normalize_iccid (String.◌∷◌ c s)) ≡ true
      → (is_digit c ≡ false) × (is_blank (normalize_iccid s) ≡ true)
  unfolding normalize_iccid
  no_digit c s h = ground arith

  -- a text with no digit keeps none when it is stripped
  normalize-strip_right :
      (s : String)
      → is_blank (normalize_iccid s) ≡ true
      → is_blank (normalize_iccid (strip_right s)) ≡ true
  unfolding normalize_iccid strip_right
  normalize-strip_right String.[] h = refl
  normalize-strip_right (String.◌∷◌ c s) h =
      elim (Bool-cases (is_space c && is_blank (strip_right s))) [
        | inl cut ↦ rw cut
        | inr kept ↦
            let (plain, rest) = no_digit c s h in rw kept (rw plain (normalize-strip_right s rest))
      ]

  normalize-strip_left :
      (s : String)
      → is_blank (normalize_iccid s) ≡ true
      → is_blank (normalize_iccid (strip_left s)) ≡ true
  unfolding strip_left
  normalize-strip_left String.[] h = h
  normalize-strip_left (String.◌∷◌ c s) h = elim (Bool-cases (is_space c)) [
    | inl space ↦ rw space (normalize-strip_left s (no_digit c s h).1)
    | inr other ↦ rw other h
  ]

  strip_left_idempotent : (s : String) → strip_left (strip_left s) ≡ strip_left s
  unfolding strip_left
  strip_left_idempotent String.[] = refl
  strip_left_idempotent (String.◌∷◌ c s) = ground (arith, strip_left_idempotent s)

  strip_right_idempotent : (s : String) → strip_right (strip_right s) ≡ strip_right s
  unfolding strip_right
  strip_right_idempotent String.[] = refl
  strip_right_idempotent (String.◌∷◌ c s) = ground (arith, strip_right_idempotent s)

  strip_right_tail :
      (c : Char) (s : String) → strip_right (String.◌∷◌ c s) ≡ String.◌∷◌ c s → strip_right s ≡ s
  unfolding strip_right
  strip_right_tail c s h = elim (Bool-cases (is_space c && is_blank (strip_right s))) [
    | inl cut ↦ cc (ap is_blank (rw cut at h))
    | inr kept ↦ ap tail_of (rw kept at h)
  ]

  -- what is stripped on the right stays so when it is stripped on the left
  strip_right-strip_left :
      (s : String) → strip_right s ≡ s → strip_right (strip_left s) ≡ strip_left s
  unfolding strip_left
  strip_right-strip_left String.[] h = h
  strip_right-strip_left (String.◌∷◌ c s) h = elim (Bool-cases (is_space c)) [
    | inl space ↦ rw space (strip_right-strip_left s (strip_right_tail c s h))
    | inr other ↦ rw other h
  ]

  strip_idempotent : (s : String) → strip (strip s) ≡ strip s
  unfolding strip
  strip_idempotent s =
      rw (strip_right-strip_left (strip_right s) (strip_right_idempotent s))
        (strip_left_idempotent (strip_right s))

  stripped_no_digit :
      (s : String)
      → is_blank (normalize_iccid s) ≡ true
      → is_blank (normalize_iccid (strip s)) ≡ true
  unfolding strip
  stripped_no_digit s h = normalize-strip_left (strip_right s) (normalize-strip_right s h)

  -- Routing by an ICCID that was already reduced to its key is routing by the same key: the services
  -- reduce it before they call one another, and each of them reduces it again.
  pub route_iccid_idempotent : (s : String) → route_iccid (route_iccid s) ≡ route_iccid s
  unfolding route_iccid
  route_iccid_idempotent s = ground (
    arith,
    normalize_idempotent s,
    λ (h : is_blank (normalize_iccid s) ≡ true). stripped_no_digit s h,
    strip_idempotent s,
  )
