-- ===== src/Domain.antt =====
-- app/subscriptions/domain.py and app/providers/base.py: subscriptions, search filters, and what the
-- services see of the provider adapters.
use app_suscriptions_back.Prelude.{
  ℕ, String, Bool, true, false, not, ◌||◌, Option, none, some, List, [], ◌∷◌, str_eq,
}
use app_suscriptions_back.Errors.{Result}

-- A value of a `provider_fields` dict; dicts and lists nest.
mutual
  pub data Value : Type 0 where
    null : Value
    bool : Bool → Value
    number : ℕ → Value
    string : String → Value
    array : Values → Value
    object : Fields → Value

  pub data Values : Type 0 where
    nil : Values
    cons : Value → Values → Values

  pub data Fields : Type 0 where
    end : Fields
    field : String → Value → Fields → Fields

-- Instants are whole microseconds; ids are UUIDs, which are only compared.
pub record Subscription : Type 0 where
  pub iccid : String
  pub msisdn : Option String
  pub imsi : Option String
  pub status : String
  pub provider : String
  pub company_id : ℕ
  pub activated_at : Option ℕ
  pub updated_at : Option ℕ
  pub provider_fields : Fields

pub record SearchFilters : Type 0 where
  pub status : Option String
  pub modified_since : Option ℕ
  pub modified_till : Option ℕ
  pub iccid : Option String
  pub imsi : Option String
  pub msisdn : Option String
  pub imei : Option String
  pub operator : Option String
  pub data_service : Option Bool
  pub sms_service : Option Bool
  pub last_lu_since : Option ℕ
  pub last_lu_till : Option ℕ
  pub imsi_list : Option (List String)
  pub custom : List (String × String)

abbrev pub no_filters : SearchFilters
no_filters = record {
  status = none;
  modified_since = none;
  modified_till = none;
  iccid = none;
  imsi = none;
  msisdn = none;
  imei = none;
  operator = none;
  data_service = none;
  sms_service = none;
  last_lu_since = none;
  last_lu_till = none;
  imsi_list = none;
  custom = [];
}

-- `x is not None`
abbrev pub is_set {ℓ} : {A : Type ℓ} → Option A → Bool
is_set none = false
is_set (some _) = true

-- `bool(text)` of a text or None
abbrev pub is_text : Option String → Bool
is_text none = false
is_text (some s) = not (str_eq s "")

-- `bool(xs)` of a list or a dict
abbrev pub is_nonempty {ℓ} : {A : Type ℓ} → List A → Bool
is_nonempty [] = false
is_nonempty (_ ∷ _) = true

abbrev pub is_listed {ℓ} : {A : Type ℓ} → Option (List A) → Bool
is_listed none = false
is_listed (some xs) = is_nonempty xs

unfoldable pub has_filters : SearchFilters → Bool
has_filters f =
    is_set f.status
    || is_set f.modified_since
    || is_set f.modified_till
    || is_text f.iccid
    || is_text f.imsi
    || is_text f.msisdn
    || is_text f.imei
    || is_text f.operator
    || is_set f.data_service
    || is_set f.sms_service
    || is_set f.last_lu_since
    || is_set f.last_lu_till
    || is_listed f.imsi_list
    || is_nonempty f.custom

-- `Provider`
pub data Provider : Type 0 where
  kite tele2 moabits : Provider

-- `provider.value`
unfoldable pub value : Provider → String
value kite = "kite"
value tele2 = "tele2"
value moabits = "moabits"

-- `for provider in Provider`
abbrev pub providers : List Provider
providers = kite ∷ tele2 ∷ moabits ∷ []

-- One page of a listing: the subscriptions and the cursor of the next page.
abbrev pub Page : Type 0
Page = List Subscription × Option String

-- What a service uses of an adapter. A call's answer is a function of its arguments, for the time
-- of one request; `Creds` is the type of decrypted credentials.
pub record Adapter (Creds : Type 0) : Type 0 where
  pub searchable : Bool
  pub supports_list_filter : String → Bool
  pub bootstrap_filters : SearchFilters
  pub list_subscriptions : Creds → Option String → ℕ → SearchFilters → Result Page
