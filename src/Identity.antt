-- ===== src/Identity.antt =====
-- app/identity: roles, profiles, and the dependencies that guard the endpoints.
use app_suscriptions_back.Prelude.{
  ℕ, String, Bool, true, false, Option, none, some, List, if◌then◌else◌, any,
}
use app_suscriptions_back.Errors.{Result, ok, err, http}
pub mod Sessions
pub mod Users
mod Tests

-- `AppRole`
pub data Role : Type 0 where
  public admin manager member : Role

abbrev pub role_eq : Role → Role → Bool
role_eq public public = true
role_eq admin admin = true
role_eq manager manager = true
role_eq member member = true
role_eq _ _ = false

-- Ids are UUIDs, which the code only compares.
pub record Profile : Type 0 where
  pub id : ℕ
  pub company_id : Option ℕ
  pub role : Role
  pub full_name : Option String

unfoldable pub require_roles : List Role → Profile → Result Profile
require_roles roles profile =
    if any (role_eq profile.role) roles
    then ok profile
    else err (http 403 "Insufficient permissions")

unfoldable pub get_current_company_id : Profile → Result ℕ
get_current_company_id profile = elim profile.company_id [
  | none ↦ err (http 403 "Profile is not scoped to a company")
  | some c ↦ ok c
]
