-- ===== src/Normalization.antt =====
-- app/subscriptions/services/normalization.py: a subscription as the API shows it. What Python's str,
-- datetime and the letter cases of Unicode do is a parameter.
use Prim.Native.Char.{Char, code}
use app_suscriptions_back.Prelude.{
  ℕ, String, Bool, true, false, not, Option, none, some, List, [], ◌∷◌, ◌==◌, if◌then◌else◌, str_eq,
  any,
}
use app_suscriptions_back.Dict.{Dict}
use app_suscriptions_back.Domain.{
  Value, null, bool, number, string, array, object, Values, nil, cons, Fields, end, field,
  Subscription,
}
use app_suscriptions_back.Cursors.{drop_prefix}
use app_suscriptions_back.Routing.Text.{Unicode}
pub mod Scalars
pub mod Parts

-- `str(value)`, `str.lower`, `str.upper`, `str.title`; the instant of an ISO text, in UTC where it
-- names no zone, or `none` for the ValueError; an instant in ISO format with Z for UTC; `str` of an
-- id; `str.isdigit`. `fault` is what the conversion of a subscription raises, where it does: the
-- OverflowError of `astimezone` for an instant that UTC cannot express, or the ValidationError of
-- the response model.
pub record Python : Type 0 where
  pub unicode : Unicode
  pub text_of : Value → String
  pub lower : String → String
  pub upper : String → String
  pub title : String → String
  pub from_iso : String → Option ℕ
  pub to_iso : ℕ → String
  pub id_text : ℕ → String
  pub is_digits : String → Bool
  pub fault : Subscription → Option String

-- `value is not None and value != ""`
unfoldable pub is_present : Value → Bool
is_present null = false
is_present (string s) = not (str_eq s "")
is_present _ = true

-- `bool(value)`
unfoldable pub is_truthy : Value → Bool
is_truthy null = false
is_truthy (bool b) = b
is_truthy (number n) = not (n == 0)
is_truthy (string s) = not (str_eq s "")
is_truthy (array nil) = false
is_truthy (array (cons v vs)) = true
is_truthy (object end) = false
is_truthy (object (field k v fs)) = true

-- `fields.get(key)`
unfoldable pub get_field : String → Fields → Value
get_field key end = null
get_field key (field k v fs) = if str_eq k key then v else get_field key fs

-- `key in fields`
unfoldable pub has_field : String → Fields → Bool
has_field key end = false
has_field key (field k v fs) = if str_eq k key then true else has_field key fs

-- `_first_present`
unfoldable pub first_present : Fields → List String → Value
first_present source [] = null
first_present source (key ∷ rest) =
    let later = first_present source rest in
    if is_present (get_field key source) then get_field key source else later

-- a dict display, from its entries
abbrev pub dict : List (String × Value) → Fields
dict [] = end
dict ((k, v) ∷ entries) = field k v (dict entries)

-- `text.replace(old, new)` for a character
unfoldable pub replace : Char → Char → String → String
replace old new String.[] = String.[]
replace old new (String.◌∷◌ c s) =
    String.◌∷◌ (if code c == code old then new else c) (replace old new s)

-- the text without its last `n` characters, where it has the suffix (`group[:-5]`)
unfoldable pub drop_suffix : String → String → Option String
drop_suffix suffix String.[] = none
drop_suffix suffix (String.◌∷◌ c s) =
    let rest = drop_suffix suffix s in
    if str_eq suffix (String.◌∷◌ c s)
    then some String.[]
    else elim rest [ none ↦ none | some t ↦ some (String.◌∷◌ c t) ]

-- the text up to a separator, and what follows it
unfoldable pub split : Char → String → List String
split sep String.[] = String.[] ∷ []
split sep (String.◌∷◌ c s) = elim (split sep s) [
  | [] ↦ []
  | word ∷ words ↦
      if code c == code sep then String.[] ∷ word ∷ words else String.◌∷◌ c word ∷ words
]

-- `_STATUS_GROUP_BY_VALUE`
abbrev pub status_group_by_value : Dict String
status_group_by_value =
    ("ACTIVE", "active_like")
    ∷ ("ACTIVATED", "active_like")
    ∷ ("TEST", "test_like")
    ∷ ("READY", "test_like")
    ∷ ("TEST_READY", "test_like")
    ∷ ("SUSPENDED", "suspended_like")
    ∷ ("INACTIVE_NEW", "inactive_like")
    ∷ ("ACTIVATION_READY", "activation_ready_like")
    ∷ ("ACTIVATION_PENDANT", "activation_pending_like")
    ∷ ("PENDING", "activation_pending_like")
    ∷ ("DEACTIVATED", "terminal_like")
    ∷ ("PURGED", "purged_like")
    ∷ ("INVENTORY", "inventory_like")
    ∷ ("REPLACED", "replaced_like")
    ∷ ("RETIRED", "terminal_like")
    ∷ ("RESTORE", "restore_like")
    ∷ ("UNKNOWN", "unknown")
    ∷ []

-- `any(key.startswith(prefix) for prefix in prefixes)`
abbrev pub is_custom_key : String → Bool
is_custom_key key =
    any (λ prefix. elim (drop_prefix prefix key) [ none ↦ false | some _ ↦ true ])
      ("account_custom_" ∷ "operator_custom_" ∷ "customer_custom_" ∷ "custom_field_" ∷ [])

-- `_custom_fields`
unfoldable pub custom_fields : Fields → Fields
custom_fields end = end
custom_fields (field k v fs) =
    let rest = custom_fields fs in if is_custom_key k then field k v rest else rest

-- `_detail_level`
unfoldable pub detail_level : Fields → String
unfolding has_field get_field
detail_level fs =
    if has_field "detail_enriched" fs
    then elim (get_field "detail_enriched" fs) [ bool true ↦ "detail" | _ ↦ "summary" ]
    else "detail"
