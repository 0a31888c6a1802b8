-- ===== src/Listing/Credentials.antt =====
-- The credential rows that an administrator's listing goes through
-- (app/subscriptions/services/credentials.py), and the filters of its calls.
use Prim.Native.Nat.{Ordering, compare as compare_ids}
use Prim.Native.String.{compare as compare_texts}
use app_suscriptions_back.Prelude.{
  ℕ, String, Bool, true, false, ◌&&◌, Option, none, some, List, [], ◌∷◌, filter, if◌then◌else◌,
  str_eq,
}
use app_suscriptions_back.Domain.{SearchFilters, Provider, value, Adapter}
use app_suscriptions_back.Filters.Query.{or_set}

-- `CompanyProviderCredentials`, as far as the listings read it
pub record CredentialRow : Type 0 where
  pub company_id : ℕ
  pub provider : String
  pub active : Bool

-- the order of `provider, company_id`
unfoldable pub comes_before : CredentialRow → CredentialRow → Bool
comes_before a b = elim (compare_texts a.provider b.provider) [
  | Ordering.lt ↦ true
  | Ordering.gt ↦ false
  | Ordering.eq ↦ elim (compare_ids a.company_id b.company_id) [ Ordering.gt ↦ false | _ ↦ true ]
]

unfoldable pub insert_row : CredentialRow → List CredentialRow → List CredentialRow
unfolding comes_before
insert_row row [] = row ∷ []
insert_row row (other ∷ rows) =
    let later = other ∷ insert_row row rows in
    if comes_before row other then row ∷ other ∷ rows else later

-- `ORDER BY provider, company_id`
unfoldable pub order_rows : List CredentialRow → List CredentialRow
unfolding insert_row
order_rows [] = []
order_rows (row ∷ rows) = insert_row row (order_rows rows)

-- `provider is None or row.provider == provider.value`
abbrev pub is_of : Option Provider → CredentialRow → Bool
is_of none row = true
is_of (some provider) row = str_eq row.provider (value provider)

-- `_active_admin_credential_rows`
unfoldable pub active_admin_credential_rows :
    Option Provider → List CredentialRow → List CredentialRow
unfolding order_rows value
active_admin_credential_rows provider rows =
    order_rows (filter (λ row. row.active && is_of provider row) rows)

-- `_admin_effective_filters`
unfoldable pub admin_effective_filters :
    {Creds : Type 0} → Adapter Creds → SearchFilters → Bool → SearchFilters
admin_effective_filters adapter filters use_bootstrap =
    if use_bootstrap
    then record (adapter.bootstrap_filters) {
      status = filters.status;
      modified_since = or_set filters.modified_since (adapter.bootstrap_filters).modified_since;
      modified_till = filters.modified_till;
      iccid = filters.iccid;
      imsi = filters.imsi;
      msisdn = filters.msisdn;
      imei = filters.imei;
      operator = filters.operator;
      data_service = filters.data_service;
      sms_service = filters.sms_service;
      last_lu_since = filters.last_lu_since;
      last_lu_till = filters.last_lu_till;
      imsi_list = filters.imsi_list;
      custom = filters.custom;
    }
    else filters
