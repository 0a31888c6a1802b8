-- ===== src/Identity/Users/Update.antt =====
-- `update_user` and `delete_user` of users.py.
use Prim.Native.String
use app_suscriptions_back.Prelude.{
  ℕ, String, Bool, true, false, ◌&&◌, ◌||◌, not, Option, none, some, List, [], ◌∷◌, ◌++◌, any,
  filter, ◌==◌, str_eq, if◌then◌else◌,
}
use app_suscriptions_back.Errors.{Result, ok, err, http, ◌>>=◌}
use app_suscriptions_back.Database.{scalar_one_or_none, update_where}
use app_suscriptions_back.Identity.{
  Role, public, admin, manager, member, Profile, role_eq, require_roles,
}
use app_suscriptions_back.Identity.Sessions.{User}
use app_suscriptions_back.Identity.Users.{
  Texts, Accounts, UserCreate, UserUpdate, is_empty, or_empty, same_company,
  ensure_email_is_available,
}
pub mod Confined

module _ (t : Texts) (companies : List ℕ) where
  -- `_get_company_or_404`
  unfoldable pub get_company_or_404 : String → Result ℕ
  get_company_or_404 text =
      if is_empty (t.strip text)
      then err (http 422 "company_id cannot be empty")
      else scalar_one_or_none (filter (λ c. str_eq (t.company_text c) (t.strip text)) companies)
        >>= λ found. elim found [
          | none ↦
              err (http 404 (String.◌++◌ "Company '" (String.◌++◌ (t.strip text) "' not found")))
          | some c ↦ ok c
        ]

-- the rows that a caller may edit
unfoldable pub is_editable : Profile → ℕ → Profile → Bool
is_editable current user_id p =
    (p.id == user_id)
    && (role_eq current.role admin || same_company p.company_id current.company_id)

-- what a manager may do to the profile that was found
unfoldable pub may_edit : Role → Profile → Option Role → Result (Unit {0})
may_edit current target role =
    if role_eq current manager
    then (if not (role_eq target.role member)
        then err (http 403 "Managers can only edit members")
        else elim role [
          | none ↦ ok tt
          | some r ↦
              if role_eq r member
              then ok tt
              else err (http 403 "Managers cannot promote beyond member")
        ])
    else ok tt

-- `body.password.strip()` where it is not empty
abbrev pub new_password : Texts → Option String → Option String
new_password t none = none
new_password t (some p) = if is_empty (t.strip p) then none else some (t.strip p)

module _ (t : Texts) (companies : List ℕ) (user_id : ℕ) (body : UserUpdate) where
  -- the check of a new email of the user who was found
  unfoldable pub check_new_email : User → Option String → List User → Result (Unit {0})
  check_new_email user none users = ok tt
  check_new_email user (some email) users =
      if str_eq email (t.normalize_email user.email)
      then ok tt
      else ensure_email_is_available t email (some user_id) users

  -- the lookup of the user, where the email or the password changes
  unfoldable pub check_user : Option String → Option String → List User → Result (Unit {0})
  check_user none none users = ok tt
  check_user email password users =
      scalar_one_or_none (filter (λ u. u.id == user_id) users) >>= λ found. elim found [
        | none ↦ err (http 404 "User not found")
        | some user ↦ check_new_email user email users
      ]

  unfoldable pub check_email : Option String → Result (Option String)
  check_email none = ok none
  check_email (some e) =
      if is_empty (t.normalize_email e)
      then err (http 422 "email cannot be empty")
      else ok (some (t.normalize_email e))

  -- the company that an admin asks for
  unfoldable pub new_company : Role → Option String → Result (Option ℕ)
  new_company current none = ok none
  new_company current (some text) =
      if role_eq current admin
      then (get_company_or_404 t companies text >>= λ c. ok (some c))
      else ok none

  -- The checks of `update_user`, in its order: the new email, and the new company.
  unfoldable pub check_update : Profile → Accounts → Result (Option String × Option ℕ)
  check_update current s = require_roles (admin ∷ manager ∷ []) current >>= λ _.
      scalar_one_or_none (filter (is_editable current user_id) s.profiles) >>= λ found. elim found [
        | none ↦ err (http 404 "User not found")
        | some target ↦ may_edit current.role target body.role >>= λ _.
            check_email body.email >>= λ email.
            check_user email (new_password t body.password) s.users >>= λ _.
            new_company current.role body.company_id >>= λ company. ok (email, company)
      ]

  unfoldable pub edit_profile : Option ℕ → Profile → Profile
  edit_profile company p = record p {
    full_name = elim body.full_name [ none ↦ p.full_name | some n ↦ some n ];
    role = elim body.role [ none ↦ p.role | some r ↦ r ];
    company_id = elim company [ none ↦ p.company_id | some c ↦ some c ];
  }

  unfoldable pub edit_user : Option String → User → User
  edit_user email u = record u {
    email = elim email [ none ↦ u.email | some e ↦ e ];
    hashed_password = elim (new_password t body.password) [
      | none ↦ u.hashed_password
      | some p ↦ t.hash_password p
    ];
  }

  abbrev pub takes_email : Option String → User → Bool
  takes_email none u = false
  takes_email (some e) u = str_eq u.email e && not (u.id == user_id)

  -- the commit, which fails if another user has the email
  unfoldable pub commit_update : Option String → Option ℕ → Accounts → Result (Unit {0}) × Accounts
  commit_update email company s =
      if any (takes_email email) s.users then (err (http 409 "Email already exists"), s) else (
        ok tt,
        record {
          users = update_where (λ u. u.id == user_id) (edit_user email) s.users;
          profiles = update_where (λ p. p.id == user_id) (edit_profile company) s.profiles;
        },
      )

  -- `PATCH /users/{user_id}`; the profile that it answers is read from the table.
  unfoldable pub update_user : Profile → Accounts → Result (Unit {0}) × Accounts
  update_user current s = elim (check_update current s) [
    | err e ↦ (err e, s)
    | ok (email, company) ↦ commit_update email company s
  ]

-- `DELETE /users/{user_id}`. Ids are primary keys; the deletion of the user takes the profile with it.
unfoldable pub delete_user : ℕ → Profile → Accounts → Result (Unit {0}) × Accounts
delete_user user_id current s = elim (require_roles (admin ∷ []) current) [
  | err e ↦ (err e, s)
  | ok _ ↦
      if current.id == user_id
      then (err (http 400 "Cannot delete your own account"), s)
      else if any (λ u. u.id == user_id) s.users && any (λ p. p.id == user_id) s.profiles
      then (
        ok tt,
        record {
          users = filter (λ u. not (u.id == user_id)) s.users;
          profiles = filter (λ p. not (p.id == user_id)) s.profiles;
        },
      )
      else (err (http 404 "User not found"), s)
]
