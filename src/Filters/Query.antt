-- ===== src/Filters/Query.antt =====
-- The filters of a request: the schemas of a search (app/subscriptions/schemas/sim.py), and the
-- functions of filters.py that read query parameters and merge filters.
use Prim.Native.Char.{code}
use Prim.Native.String.{◌++◌ as append}
use app_suscriptions_back.Prelude.{
  ℕ, ◌≡◌, ◌↔◌, refl, String, Bool, true, false, not, ◌&&◌, ◌||◌, Option, none, some, List, [], ◌∷◌,
  ◌++◌, ◌==◌, if◌then◌else◌, str_eq, any, map, filter,
}
use app_suscriptions_back.Errors.{Result, ok, err, http, ◌>>=◌}
use app_suscriptions_back.Dict.{Dict, get, put}
use app_suscriptions_back.Domain.{
  SearchFilters, no_filters, Provider, value, is_set, is_text, is_listed, is_nonempty,
}
use app_suscriptions_back.Normalization.{Python, split}
use app_suscriptions_back.Routing.Text.{strip, is_blank}
pub mod Statuses

-- `SimSearchProviderFilters`, whose fields below `filters` are those of `SimSearchCommonFilters`
pub record ProviderFilters : Type 0 where
  pub filters : SearchFilters
  pub cursor : Option String
  pub limit : Option ℕ
  pub status : Option String
  pub statuses : List String

-- `SimSearchIn`; the common filters have no status
pub record SearchRequest : Type 0 where
  pub cursor : Option String
  pub limit : ℕ
  pub common : SearchFilters
  pub providers : List (Provider × ProviderFilters)

-- `a or b` of values that are true when they are not None, of texts, and of lists
abbrev pub or_set {ℓ} : {A : Type ℓ} → Option A → Option A → Option A
or_set none b = b
or_set (some a) b = some a

abbrev pub or_text : Option String → Option String → Option String
or_text a b = if is_text a then a else b

abbrev pub or_list : Option (List String) → Option (List String) → Option (List String)
or_list a b = if is_listed a then a else b

-- `{**base, **extra}`
unfoldable pub update {ℓ} : {V : Type ℓ} → Dict V → Dict V → Dict V
unfolding put
update base [] = base
update base ((k, v) ∷ extra) = update (put k v base) extra

-- `_merge_search_filters`
unfoldable pub merge_search_filters :
    SearchRequest → ProviderFilters → Option String → SearchFilters
unfolding update
merge_search_filters body own status =
    let common = body.common in
    let filters = own.filters in
    record {
      status = status;
      modified_since = or_set filters.modified_since common.modified_since;
      modified_till = or_set filters.modified_till common.modified_till;
      iccid = or_text filters.iccid common.iccid;
      imsi = or_text filters.imsi common.imsi;
      msisdn = or_text filters.msisdn common.msisdn;
      imei = or_text filters.imei common.imei;
      operator = or_text filters.operator common.operator;
      data_service = or_set filters.data_service common.data_service;
      sms_service = or_set filters.sms_service common.sms_service;
      last_lu_since = or_set filters.last_lu_since common.last_lu_since;
      last_lu_till = or_set filters.last_lu_till common.last_lu_till;
      imsi_list = or_list filters.imsi_list common.imsi_list;
      custom = update common.custom filters.custom;
    }

unfoldable pub is_member : String → List String → Bool
is_member x [] = false
is_member x (y ∷ ys) = str_eq y x || is_member x ys

-- `list(dict.fromkeys(xs))`, after the keys that were seen
unfoldable pub dedupe : List String → List String → List String
unfolding is_member
dedupe seen [] = []
dedupe seen (x ∷ xs) =
    let skipped = dedupe seen xs in
    let kept = x ∷ dedupe (x ∷ seen) xs in if is_member x seen then skipped else kept

-- the statuses of a request, in order: the single one first
abbrev pub given : Option String → List String → List String
given none statuses = statuses
given (some s) statuses = s ∷ statuses

-- `deduped or [None]`
abbrev pub or_none : List String → List (Option String)
or_none [] = none ∷ []
or_none (x ∷ xs) = map (λ s. some s) (x ∷ xs)

-- `_search_status_values`
unfoldable pub search_status_values : ProviderFilters → List (Option String)
unfolding dedupe
search_status_values own =
    or_none (dedupe [] (filter (λ s. not (str_eq s "")) (given own.status own.statuses)))

-- `_bootstrap_filters_for_provider`; `yesterday` is the present second less a day
unfoldable pub bootstrap_filters_for_provider : ℕ → String → SearchFilters
unfolding value
bootstrap_filters_for_provider yesterday name =
    if str_eq name (value Provider.tele2)
    then record no_filters { modified_since = some yesterday }
    else no_filters

-- the text up to the first `sep` and what follows it, where there is one (`split(sep, 1)`)
unfoldable pub cut : ℕ → String → Option (String × String)
cut sep String.[] = none
cut sep (String.◌∷◌ c s) =
    let rest = cut sep s in
    if code c == sep
    then some (String.[], s)
    else elim rest [ none ↦ none | some (before, after) ↦ some (String.◌∷◌ c before, after) ]

abbrev pub bad_request {ℓ} : {A : Type ℓ} → String → Result A
bad_request detail = err (http 400 detail)

module _ (python : Python) where
  open python use {unicode, lower}

  -- one item of `_parse_custom_filters`: `=` parts it where it has one, else `:`
  unfoldable pub parse_custom_item : String → Result (String × String)
  unfolding cut
  parse_custom_item item = elim (or_set (cut 61 item) (cut 58 item)) [
    | none ↦ bad_request "custom filters must use key=value or key:value format"
    | some (key, text) ↦
        if is_blank (strip unicode key) || is_blank (strip unicode text)
        then bad_request "custom filters must include non-empty key and value"
        else ok (strip unicode key, strip unicode text)
  ]

  -- `_parse_custom_filters`, from the filters parsed so far
  unfoldable pub parse_custom_filters : List String → Dict String → Result (Dict String)
  unfolding parse_custom_item put
  parse_custom_filters [] parsed = ok parsed
  parse_custom_filters (item ∷ raw) parsed =
      parse_custom_item item >>= λ (key, text). parse_custom_filters raw (put key text parsed)

  -- `_parse_optional_bool_query`
  unfoldable pub parse_optional_bool_query : Option String → String → Result (Option Bool)
  parse_optional_bool_query none name = ok none
  parse_optional_bool_query (some s) name =
      let word = lower (strip unicode s) in
      if str_eq s ""
      then ok none
      else if str_eq word "true" || str_eq word "1" || str_eq word "yes" || str_eq word "on"
      then ok (some true)
      else if str_eq word "false" || str_eq word "0" || str_eq word "no" || str_eq word "off"
      then ok (some false)
      else bad_request (append name " must be true or false")

  -- `_parse_query_dt`; `parse` gives the instant of a text of the fixed format, `none` for others,
  -- and an error for one that names no date (the ValueError of strptime)
  unfoldable pub parse_query_dt :
      (String → Option (Result ℕ)) → Option String → String → Result (Option ℕ)
  parse_query_dt parse none name = ok none
  parse_query_dt parse (some s) name = elim (parse s) [
    | none ↦ bad_request (append name " must use yyyy-MM-ddTHH:mm:ssZ format")
    | some (ok at) ↦ ok (some at)
    | some (err e) ↦ err e
  ]

  -- `_parse_metric_list`
  unfoldable pub parse_metric_list : Option String → Option (List String)
  unfolding split
  parse_metric_list none = none
  parse_metric_list (some raw) =
      let metrics =
        map (λ item. strip unicode item)
          (filter (λ item. not (is_blank (strip unicode item))) (split "," raw)) in
      if str_eq raw "" then none else if is_nonempty metrics then some metrics else none
