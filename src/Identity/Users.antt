-- ===== src/Identity/Users.antt =====
-- app/identity/routers/users.py on the tables of users and profiles. The normal forms of texts, the hashing of passwords and the text of a company's id are
-- libraries' and parameters.
use Prim.Native.String
use app_suscriptions_back.Prelude.{
  ℕ, String, Bool, true, false, ◌&&◌, ◌||◌, not, Option, none, some, List, [], ◌∷◌, ◌++◌, any,
  filter, ◌==◌, str_eq, if◌then◌else◌,
}
use app_suscriptions_back.Errors.{Result, ok, err, http, ◌>>=◌}
use app_suscriptions_back.Database.{scalar_one_or_none, update_where}
use app_suscriptions_back.Identity.{
  Role, public, admin, manager, member, Profile, role_eq, require_roles,
}
use app_suscriptions_back.Identity.Sessions.{User}
pub mod Create
pub mod Update

pub record Texts : Type 0 where
  pub normalize_email : String → String
  pub lower : String → String
  pub strip : String → String
  pub hash_password : String → String
  pub company_text : ℕ → String

pub record Accounts : Type 0 where
  pub users : List User
  pub profiles : List Profile

pub record UserCreate : Type 0 where
  pub email : String
  pub password : String
  pub full_name : Option String
  pub role : Role
  pub company_id : Option ℕ

pub record UserUpdate : Type 0 where
  pub email : Option String
  pub password : Option String
  pub full_name : Option String
  pub role : Option Role
  pub company_id : Option String

abbrev pub is_empty : String → Bool
is_empty s = str_eq s ""

abbrev pub or_empty : Option String → String
or_empty none = ""
or_empty (some s) = s

abbrev pub is_excluded : Option ℕ → ℕ → Bool
is_excluded none id = false
is_excluded (some excluded) id = id == excluded

-- `Profile.company_id == current.company_id`, where None stands for IS NULL
abbrev pub same_company : Option ℕ → Option ℕ → Bool
same_company none none = true
same_company (some a) (some b) = a == b
same_company _ _ = false

module _ (t : Texts) where
  -- `ensure_email_is_available`
  unfoldable pub ensure_email_is_available : String → Option ℕ → List User → Result (Unit {0})
  ensure_email_is_available email exclude users =
      scalar_one_or_none (
        filter
          (λ u.
            str_eq (t.lower u.email) (t.normalize_email email) && not (is_excluded exclude u.id))
          users)
      >>= λ found. elim found [ none ↦ ok tt | some _ ↦ err (http 409 "Email already exists") ]
