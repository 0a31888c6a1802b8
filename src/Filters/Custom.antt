-- ===== src/Filters/Custom.antt =====
-- Custom filters of filters.py: a key is looked up as it was sent and in a canonical form, in the
-- provider's fields, in the normalized dict and in its custom fields.
use Prim.Native.Char.{code}
use Prim.Native.String.{◌++◌ as append}
use app_suscriptions_back.Prelude.{
  String, Bool, true, false, not, ◌&&◌, ◌||◌, Option, none, some, List, [], ◌∷◌, ◌++◌, ◌==◌,
  if◌then◌else◌, any, leb,
}
use app_suscriptions_back.Dict.{get}
use app_suscriptions_back.Domain.{
  Value, null, bool, string, array, object, Values, nil, cons, Fields,
}
use app_suscriptions_back.Normalization.{Python, is_truthy, get_field, has_field, replace}
use app_suscriptions_back.Normalization.Scalars.{boolish, stripped}
use app_suscriptions_back.Routing.Text.{Unicode, strip, is_blank}
use app_suscriptions_back.Cursors.{drop_prefix}

-- `part in text`
unfoldable pub contains : String → String → Bool
unfolding drop_prefix
contains word String.[] = is_blank word
contains word (String.◌∷◌ c s) = elim (drop_prefix word (String.◌∷◌ c s)) [
  | some _ ↦ true
  | none ↦ contains word s
]

-- `_CUSTOM_FILTER_NORMALIZED_PATHS`
abbrev pub normalized_paths : List (String × (String × String))
normalized_paths =
    ("alias", ("identity", "alias"))
    ∷ ("imei", ("identity", "imei"))
    ∷ ("sim_model", ("hardware", "sim_model"))
    ∷ ("device_id", ("hardware", "device_id"))
    ∷ ("modem_id", ("hardware", "modem_id"))
    ∷ ("eid", ("identity", "eid"))
    ∷ ("euiccid", ("identity", "euiccid"))
    ∷ ("sim_profile_id", ("identity", "sim_profile_id"))
    ∷ ("operator", ("network", "operator"))
    ∷ ("country", ("network", "country"))
    ∷ ("rat_type", ("network", "rat_type"))
    ∷ ("ip_address", ("network", "ip_address"))
    ∷ ("fixed_ip_address", ("network", "fixed_ip_address"))
    ∷ ("ipv6_address", ("network", "ipv6_address"))
    ∷ ("last_network", ("network", "last_network"))
    ∷ ("product_name", ("plan", "name"))
    ∷ ("rate_plan", ("plan", "name"))
    ∷ ("commercial_group", ("plan", "name"))
    ∷ ("communication_plan", ("plan", "communication_plan"))
    ∷ ("product_code", ("plan", "code"))
    ∷ ("product_id", ("plan", "id"))
    ∷ ("service_pack", ("plan", "name"))
    ∷ ("company_code", ("customer", "company_code"))
    ∷ ("client_name", ("customer", "name"))
    ∷ ("customer", ("customer", "name"))
    ∷ ("account_id", ("customer", "account_id"))
    ∷ ("end_consumer_id", ("customer", "id"))
    ∷ ("data_limit_mb", ("limits", "data"))
    ∷ ("sms_limit", ("limits", "sms"))
    ∷ []

-- `text.replace("_", "")`
unfoldable pub without_underscores : String → String
without_underscores String.[] = String.[]
without_underscores (String.◌∷◌ c s) =
    let rest = without_underscores s in if code c == 95 then rest else String.◌∷◌ c rest

-- `re.sub(r"(?=[A-Z])", "_", text)`
unfoldable pub mark_capitals : String → String
mark_capitals String.[] = String.[]
mark_capitals (String.◌∷◌ c s) =
    let rest = String.◌∷◌ c (mark_capitals s) in
    if leb 65 (code c) && leb (code c) 90 then String.◌∷◌ "_" rest else rest

-- `re.sub(r"(?<!^)(?=[A-Z])", "_", text)`: no mark at the start
abbrev pub snake : String → String
snake String.[] = String.[]
snake (String.◌∷◌ c s) = String.◌∷◌ c (mark_capitals s)

abbrev pub starts_low : String → Bool
starts_low String.[] = false
starts_low (String.◌∷◌ c s) = code c == 95

-- `re.sub(r"_+", "_", text)`
unfoldable pub collapse : String → String
collapse String.[] = String.[]
collapse (String.◌∷◌ c s) =
    let rest = collapse s in if code c == 95 && starts_low rest then rest else String.◌∷◌ c rest

-- the characters that `strip("_")` takes away
abbrev pub underscores : Unicode
underscores = record { is_digit = λ c. false; is_space = λ c. code c == 95 }

abbrev pub custom_prefixes : List (String × String)
custom_prefixes =
    ("customfield", "custom_field")
    ∷ ("accountcustom", "account_custom")
    ∷ ("operatorcustom", "operator_custom")
    ∷ ("customercustom", "customer_custom")
    ∷ []

-- `_normalized_path_value` for a path of two keys
unfoldable pub path_value : Fields → String × String → Value
unfolding get_field
path_value normalized (outer, inner) = elim (get_field outer normalized) [
  | object fs ↦ get_field inner fs
  | _ ↦ null
]

-- the values of the two keys in a dict
abbrev pub under_keys : String → String → Fields → List Value
under_keys key canonical fs =
    (if has_field key fs then get_field key fs ∷ [] else [])
    ++ (if has_field canonical fs then get_field canonical fs ∷ [] else [])

module _ (python : Python) where
  open python use {unicode, text_of, lower, is_digits}

  -- the loop over the prefixes of `_canonical_custom_filter_key`
  unfoldable pub numbered_key : String → List (String × String) → Option String
  unfolding drop_prefix
  numbered_key compact [] = none
  numbered_key compact ((prefix, canonical) ∷ rest) =
      let later = numbered_key compact rest in
      elim (drop_prefix prefix compact) [
        | none ↦ later
        | some suffix ↦
            if is_digits suffix then some (append canonical (append "_" suffix)) else later
      ]

  -- `_canonical_custom_filter_key`
  unfoldable pub canonical_key : String → String
  unfolding numbered_key replace without_underscores mark_capitals collapse
  canonical_key key =
      let cleaned = replace "." "_" (replace "-" "_" (strip unicode key)) in
      elim (numbered_key (lower (without_underscores cleaned)) custom_prefixes) [
        | some found ↦ found
        | none ↦ strip underscores (collapse (lower (snake cleaned)))
      ]

  -- `_custom_filter_values`
  unfoldable pub custom_filter_values : Fields → Fields → String → List Value
  unfolding canonical_key path_value get_field has_field get
  custom_filter_values provider_fields normalized key =
      let canonical = canonical_key key in
      under_keys key canonical provider_fields
      ++ elim (get canonical normalized_paths) [
        | none ↦ []
        | some path ↦ path_value normalized path ∷ []
      ]
      ++ elim (get_field "custom_fields" normalized) [
        | object fs ↦ under_keys key canonical fs
        | _ ↦ []
      ]

  -- the test of `_custom_filter_matches_value` for a value that is no list
  unfoldable pub scalar_matches : Value → String → Bool
  unfolding boolish is_truthy contains
  scalar_matches v text =
      contains (lower text) (lower (stripped python (if is_truthy v then v else string "")))

  unfoldable mutual
    -- `_custom_filter_matches_value`
    pub custom_value_matches : Value → String → Bool
    custom_value_matches (array vs) expected =
        is_blank (strip unicode expected) || custom_any_matches vs (strip unicode expected)
    custom_value_matches v expected =
        is_blank (strip unicode expected)
        || elim (boolish python (string (strip unicode expected))) [
          | bool wanted ↦ elim (boolish python v) [
            | bool b ↦ if wanted then b else not b
            | _ ↦ scalar_matches v (strip unicode expected)
          ]
          | _ ↦ scalar_matches v (strip unicode expected)
        ]

    pub custom_any_matches : Values → String → Bool
    custom_any_matches nil expected = false
    custom_any_matches (cons v vs) expected =
        custom_value_matches v expected || custom_any_matches vs expected

  -- `_custom_filters_match`
  unfoldable pub custom_filters_match : Fields → Fields → List (String × String) → Bool
  unfolding custom_filter_values custom_value_matches
  custom_filters_match provider_fields normalized [] = true
  custom_filters_match provider_fields normalized ((key, expected) ∷ filters) =
      let rest = custom_filters_match provider_fields normalized filters in
      let found = custom_filter_values provider_fields normalized key in
      if is_blank (strip unicode expected)
      then rest
      else any (λ v. custom_value_matches v expected) found && rest
