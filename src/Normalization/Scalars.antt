-- ===== src/Normalization/Scalars.antt =====
-- The functions of normalization.py on single values.
use Prim.Native.Char.{code}
use Prim.Native.String.{◌++◌ as append}
use app_suscriptions_back.Prelude.{
  ℕ, String, true, false, not, ◌||◌, Option, none, some, List, [], ◌∷◌, ◌==◌, if◌then◌else◌, str_eq,
  map, filter,
}
use app_suscriptions_back.Dict.{get}
use app_suscriptions_back.Domain.{
  Value, null, bool, string, array, object, Values, nil, cons, Fields, end, field, Subscription,
}
use app_suscriptions_back.Normalization.{
  Python, is_present, is_truthy, get_field, dict, replace, drop_suffix, split,
  status_group_by_value,
}
use app_suscriptions_back.Routing.Text.{strip, is_blank}

-- a list of values from a list
abbrev pub values : List Value → Values
values [] = nil
values (v ∷ vs) = cons v (values vs)

-- `raw.replace("Z", "+00:00")`
unfoldable pub replace_z : String → String
replace_z String.[] = String.[]
replace_z (String.◌∷◌ c s) =
    let rest = replace_z s in if code c == 90 then append "+00:00" rest else String.◌∷◌ c rest

-- a text, or None where it is empty
abbrev pub text_or_null : String → Value
text_or_null s = if is_blank s then null else string s

-- `"mb" if value is not None else None`
abbrev pub unit_of : Value → Value
unit_of null = null
unit_of _ = string "mb"

-- `SubscriptionOut`: the subscription with what is added to it
pub record SubscriptionOut : Type 0 where
  pub subscription : Subscription
  pub detail_level : String
  pub normalized : Fields

-- `_status_group_label`
unfoldable pub status_group_label : (String → String) → String → String
unfolding drop_suffix replace
status_group_label title group =
    if str_eq group "unknown"
    then "Unknown"
    else if str_eq group "other"
    then "Other"
    else elim (drop_suffix "_like" group) [
      | some stem ↦ append (title (replace "_" " " stem)) "-like"
      | none ↦ title (replace "_" " " group)
    ]

module _ (python : Python) where
  open python use {unicode, text_of, lower, upper, title, from_iso, to_iso, id_text}

  -- `str(value).strip()`
  abbrev pub stripped : Value → String
  stripped v = strip unicode (text_of v)

  -- `_boolish`
  unfoldable pub boolish : Value → Value
  boolish (string s) =
      let word = lower (strip unicode s) in
      if str_eq word "true" || str_eq word "1" || str_eq word "yes" || str_eq word "enabled"
      then bool true
      else if str_eq word "false" || str_eq word "0" || str_eq word "no" || str_eq word "disabled"
      then bool false
      else string s
  boolish v = v

  -- `_iso_datetime` of a value that is no datetime, for an instant that UTC can express; another one
  -- is a `fault` of its subscription
  unfoldable pub iso_datetime : Value → Value
  unfolding is_present replace_z
  iso_datetime v =
      if not (is_present v)
      then null
      else if is_blank (stripped v)
      then null
      else elim (from_iso (replace_z (stripped v))) [
        | none ↦ string (stripped v)
        | some instant ↦ string (to_iso instant)
      ]

  -- `_parse_any_dt` of a value that is no datetime
  unfoldable pub parse_any_dt : Value → Option ℕ
  unfolding is_present replace_z
  parse_any_dt v =
      if not (is_present v)
      then none
      else if is_blank (stripped v)
      then none
      else from_iso (replace_z (stripped v))

  -- `_status_label` of a text
  unfoldable pub status_label : String → Value
  unfolding replace
  status_label status =
      let cleaned = strip unicode status in
      if is_blank cleaned then null else string (title (replace "_" " " cleaned))

  -- `_status_group` of a text
  unfoldable pub status_group : String → String
  unfolding replace get
  status_group status =
      let word = upper (replace "-" "_" (replace " " "_" (strip unicode status))) in
      if is_blank word
      then "unknown"
      else elim (get word status_group_by_value) [ none ↦ "other" | some group ↦ group ]

  -- one payload of `_normalize_usage_controls`
  abbrev pub usage_control : Value → Value
  usage_control (object payload) = object (
      dict (
        ("limit", boolish (get_field "limit" payload))
        ∷ ("value", boolish (get_field "value" payload))
        ∷ ("threshold_reached", boolish (get_field "thr_reached" payload))
        ∷ ("traffic_cut", boolish (get_field "traffic_cut" payload))
        ∷ ("enabled", boolish (get_field "enabled" payload))
        ∷ []))
  usage_control payload = payload

  unfoldable pub usage_controls : Fields → Fields
  usage_controls end = end
  usage_controls (field metric payload fs) =
      field metric (usage_control payload) (usage_controls fs)

  -- `_normalize_usage_controls`
  unfoldable pub normalize_usage_controls : Value → Value
  unfolding usage_controls
  normalize_usage_controls (object fs) = object (usage_controls fs)
  normalize_usage_controls v = v

  -- the services: those of the provider, or the words of `services_raw` between slashes
  unfoldable pub services_of : Fields → Value
  unfolding get_field is_truthy split
  services_of fs = elim (get_field "services" fs) [
    | null ↦
        if is_truthy (get_field "services_raw" fs)
        then array (
            values (
              map (λ item. string (lower (strip unicode item)))
                (filter (λ item. not (is_blank (strip unicode item)))
                  (split "/" (text_of (get_field "services_raw" fs))))))
        else null
    | services ↦ services
  ]
