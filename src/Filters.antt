-- ===== src/Filters.antt =====
-- app/subscriptions/services/filters.py: which subscriptions a search keeps after the provider has
-- answered.
use app_suscriptions_back.Prelude.{
  ℕ, String, Bool, true, false, not, ◌&&◌, ◌||◌, Option, none, some, List, ◌==◌, if◌then◌else◌,
  str_eq, any, map, filter, ltb,
}
use app_suscriptions_back.Domain.{
  Value, null, bool, string, array, object, Values, nil, cons, Fields, end, Subscription,
  SearchFilters, is_set, is_text, is_listed, is_nonempty,
}
use app_suscriptions_back.Normalization.{Python, is_truthy, get_field}
use app_suscriptions_back.Normalization.Scalars.{boolish, parse_any_dt, stripped}
use app_suscriptions_back.Normalization.Parts.{normalized_subscription}
use app_suscriptions_back.Filters.Custom.{contains, custom_filters_match}
use app_suscriptions_back.Routing.Text.{strip, is_blank}
pub mod Custom
pub mod Query
pub mod Shortcut

-- `_requires_post_filter`
unfoldable pub requires_post_filter : SearchFilters → Bool
requires_post_filter f =
    is_text f.imei
    || is_text f.operator
    || is_set f.data_service
    || is_set f.sms_service
    || is_set f.last_lu_since
    || is_set f.last_lu_till
    || is_listed f.imsi_list
    || is_nonempty f.custom

-- a part of the normalized dict, `normalized.get(name) or {}`
unfoldable pub part : String → Fields → Fields
unfolding get_field
part name fs = elim (get_field name fs) [ object inner ↦ inner | _ ↦ end ]

-- `text or ""`
abbrev pub or_empty : Option String → String
or_empty none = ""
or_empty (some s) = s

module _ (python : Python) where
  open python use {unicode, text_of, lower}

  -- `str(value or "").strip()`
  unfoldable pub text_or_empty : Value → String
  unfolding is_truthy
  text_or_empty v = stripped python (if is_truthy v then v else string "")

  unfoldable pub has_word : String → Values → Bool
  has_word word nil = false
  has_word word (cons v vs) = str_eq (lower (stripped python v)) word || has_word word vs

  -- `_service_matches` for "data" and `_sms_service_matches` for "sms"
  unfoldable pub service_matches : String → Value → Value → Bool → Bool
  unfolding boolish has_word
  service_matches word v active expected = elim (boolish python v) [
    | bool b ↦ if expected then b else not b
    | _ ↦ elim active [
      | array items ↦ if expected then has_word word items else not (has_word word items)
      | _ ↦ false
    ]
  ]

  unfoldable pub imei_matches : Fields → Option String → Bool
  unfolding get_field text_or_empty
  imei_matches identity asked =
      not (is_text asked)
      || str_eq (text_or_empty (get_field "imei" identity)) (strip unicode (or_empty asked))

  unfoldable pub operator_matches : Fields → Option String → Bool
  unfolding get_field is_truthy contains
  operator_matches network asked =
      let operator = get_field "operator" network in
      not (is_text asked)
      || contains (lower (strip unicode (or_empty asked)))
          (lower (text_of (if is_truthy operator then operator else string "")))

  -- the IMSIs of a filter that are not blank, stripped
  abbrev pub allowed : Option (List String) → List String
  allowed none = List.[]
  allowed (some imsis) =
      filter (λ imsi. not (is_blank imsi)) (map (λ imsi. strip unicode imsi) imsis)

  unfoldable pub imsi_matches : Option String → Option (List String) → Bool
  imsi_matches imsi asked =
      not (is_listed asked)
      || any (λ candidate. str_eq candidate (strip unicode (or_empty imsi))) (allowed asked)

  unfoldable pub asked_service : String → Value → Value → Option Bool → Bool
  unfolding service_matches
  asked_service word v active none = true
  asked_service word v active (some expected) = service_matches word v active expected

  unfoldable pub lu_since : Option ℕ → Option ℕ → Bool
  lu_since last_lu none = true
  lu_since none (some since) = false
  lu_since (some at) (some since) = not (ltb at since)

  -- a SIM without a last update passes an upper bound
  unfoldable pub lu_till : Option ℕ → Option ℕ → Bool
  lu_till last_lu none = true
  lu_till none (some till) = true
  lu_till (some at) (some till) = not (ltb till at)

  unfoldable pub custom_matches : Subscription → SearchFilters → Bool
  unfolding normalized_subscription
  custom_matches sub f =
      not (is_nonempty f.custom)
      || custom_filters_match python sub.provider_fields (normalized_subscription python sub)
          f.custom

  -- `_post_filter_matches`: each guard of the source returns False where its test here is false.
  unfoldable pub post_filter_matches : SearchFilters → Subscription → Bool
  unfolding normalized_subscription part get_field parse_any_dt
  post_filter_matches f sub =
      let normalized = normalized_subscription python sub in
      let network = part "network" normalized in
      let services = part "services" normalized in
      let active = get_field "active" services in
      let last_lu = parse_any_dt python (get_field "last_lu_at" network) in
      imei_matches (part "identity" normalized) f.imei
      && operator_matches network f.operator
      && imsi_matches sub.imsi f.imsi_list
      && asked_service "data" (get_field "data_service" services) active f.data_service
      && asked_service "sms" (get_field "sms_service" services) active f.sms_service
      && lu_since last_lu f.last_lu_since
      && lu_till last_lu f.last_lu_till
      && custom_matches sub f

  -- `_apply_post_filters`
  unfoldable pub apply_post_filters : SearchFilters → List Subscription → List Subscription
  unfolding requires_post_filter
  apply_post_filters f subs =
      if requires_post_filter f then filter (post_filter_matches f) subs else subs
