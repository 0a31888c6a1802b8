-- ===== src/Dict.antt =====
-- Python's dicts with texts as keys, in insertion order.
use app_suscriptions_back.Prelude.{
  ◌≡◌, refl, Bool, true, false, Option, none, some, List, [], ◌∷◌, String, str_eq, str_eq_iff,
  if◌then◌else◌, arith, map,
}

abbrev pub Dict {ℓ} : Type ℓ → Type ℓ
Dict V = List (String × V)

abbrev pub keys {ℓ} : {V : Type ℓ} → Dict V → List String
keys d = map (λ entry. entry.0) d

module _ {ℓ} {V : Type ℓ} where
  -- `d.get(key)`, or `none` when the key is not there
  unfoldable pub get : String → Dict V → Option V
  get key [] = none
  get key ((k, v) ∷ d) = if str_eq k key then some v else get key d

  -- `key in d`
  unfoldable pub has : String → Dict V → Bool
  has key [] = false
  has key ((k, v) ∷ d) = if str_eq k key then true else has key d

  -- `d[key] = v`
  unfoldable pub put : String → V → Dict V → Dict V
  put key v [] = (key, v) ∷ []
  put key v ((k, w) ∷ d) = if str_eq k key then (key, v) ∷ d else (k, w) ∷ put key v d

  -- `d.setdefault(key, v)`
  unfoldable pub set_default : String → V → Dict V → Dict V
  unfolding has put
  set_default key v d = if has key d then d else put key v d

  pub get-put :
      (asked key : String) (v : V) (d : Dict V)
      → get asked (put key v d) ≡ (if str_eq key asked then some v else get asked d)
  unfolding get put
  get-put asked key v [] = refl
  get-put asked key v ((k, w) ∷ d) =
      ground
        (arith, get-put asked key v d, str_eq_iff k key, str_eq_iff k asked, str_eq_iff key asked)

  pub has-put :
      (asked key : String) (v : V) (d : Dict V)
      → has asked (put key v d) ≡ (if str_eq key asked then true else has asked d)
  unfolding has put
  has-put asked key v [] = refl
  has-put asked key v ((k, w) ∷ d) =
      ground
        (arith, has-put asked key v d, str_eq_iff k key, str_eq_iff k asked, str_eq_iff key asked)
