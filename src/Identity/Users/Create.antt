-- ===== src/Identity/Users/Create.antt =====
-- `create_user` of users.py.
use Prim.Native.String
use app_suscriptions_back.Prelude.{
  ℕ, String, Bool, true, false, ◌&&◌, ◌||◌, not, Option, none, some, List, [], ◌∷◌, ◌++◌, any,
  filter, ◌==◌, str_eq, if◌then◌else◌,
}
use app_suscriptions_back.Errors.{Result, ok, err, http, ◌>>=◌}
use app_suscriptions_back.Database.{scalar_one_or_none, update_where}
use app_suscriptions_back.Identity.{
  Role, public, admin, manager, member, Profile, role_eq, require_roles,
}
use app_suscriptions_back.Identity.Sessions.{User}
use app_suscriptions_back.Identity.Users.{
  Texts, Accounts, UserCreate, UserUpdate, is_empty, or_empty, same_company,
  ensure_email_is_available,
}
pub mod Created

-- the first guards of `create_user`
unfoldable pub may_create : Role → Role → Result (Unit {0})
may_create current role =
    if role_eq current public || role_eq current member
    then err (http 403 "Insufficient permissions")
    else if role_eq current manager && not (role_eq role member)
    then err (http 403 "Managers can only create members")
    else ok tt

-- the company of a new profile
unfoldable pub company_for : Profile → Option ℕ → Result ℕ
company_for current asked =
    if role_eq current.role admin
    then elim asked [
      | none ↦ err (http 422 "company_id is required when creating a user as admin")
      | some c ↦ ok c
    ]
    else elim current.company_id [
      | none ↦ err (http 403 "Profile is not scoped to a company")
      | some c ↦ ok c
    ]

module _ (t : Texts) (companies : List ℕ) where
  -- the checks of `create_user`, up to the company
  unfoldable pub check_create : UserCreate → Profile → Accounts → Result ℕ
  check_create body current s = may_create current.role body.role >>= λ _.
      if is_empty (t.normalize_email body.email)
      then err (http 422 "email cannot be empty")
      else ensure_email_is_available t (t.normalize_email body.email) none s.users >>= λ _.
          company_for current body.company_id

  -- The commit: it violates a constraint if the id or the email is taken, or the company is not there,
  -- and every violation is answered alike.
  unfoldable pub commit_create : ℕ → UserCreate → ℕ → Accounts → Result Profile × Accounts
  commit_create new_id body company s =
      if any (λ u. u.id == new_id || str_eq u.email (t.normalize_email body.email)) s.users
        || not (any (λ c. c == company) companies)
      then (err (http 409 "Email already exists"), s)
      else (let profile : Profile = record {
        id = new_id;
        company_id = some company;
        role = body.role;
        full_name = some (or_empty body.full_name);
      } in
          (
            ok profile,
            record {
              users =
                  s.users
                  ++ record {
                    id = new_id;
                    email = t.normalize_email body.email;
                    hashed_password = t.hash_password body.password;
                  }
                    ∷ [];
              profiles = s.profiles ++ profile ∷ [];
            },
          ))

  -- `POST /users`; `new_id` is the random id
  unfoldable pub create_user : ℕ → UserCreate → Profile → Accounts → Result Profile × Accounts
  create_user new_id body current s = elim (check_create body current s) [
    | err e ↦ (err e, s)
    | ok company ↦ commit_create new_id body company s
  ]
