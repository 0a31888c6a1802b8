-- ===== src/Identity/Users/Create/Created.antt =====
-- Whom the callers of users.py who are no admins can create.
use app_suscriptions_back.Prelude.{
  ℕ, ◌≡◌, ◌≢◌, refl, sym, false, ◌||◌, not, Option, some, List, [], ◌∷◌, ◌++◌, any, str_eq, arith,
  ◌⊎◌, ◌==◌, Bool-cases, inl, inr,
}
use app_suscriptions_back.Errors.{ok, Result-cases}
use app_suscriptions_back.Identity.{Role, public, admin, manager, member, Profile, role_eq}
use app_suscriptions_back.Identity.Users.{Texts, Accounts, or_empty, UserCreate}
use app_suscriptions_back.Identity.Users.Create.{
  may_create, company_for, check_create, commit_create, create_user,
}

may_create_member :
    (current role : Role) → current ≢ admin → may_create current role ≡ ok tt → role ≡ member
unfolding may_create
may_create_member public role h e = ground arith
may_create_member admin role h e = absurd (h refl)
may_create_member member role h e = ground arith
may_create_member manager public h e = ground arith
may_create_member manager admin h e = ground arith
may_create_member manager manager h e = ground arith
may_create_member manager member h e = refl

no_admin_eq : (r : Role) → r ≢ admin → role_eq r admin ≡ false
no_admin_eq public h = refl
no_admin_eq admin h = absurd (h refl)
no_admin_eq manager h = refl
no_admin_eq member h = refl

company_for_own :
    (current : Profile) (asked : Option ℕ) (company : ℕ)
    → current.role ≢ admin
    → company_for current asked ≡ ok company
    → current.company_id ≡ some company
unfolding company_for
company_for_own current asked company h e = ground (arith, no_admin_eq current.role h)

check_create_inv :
    (t : Texts) (companies : List ℕ) (body : UserCreate) (current : Profile) (s : Accounts)
    (company : ℕ)
    → check_create t companies body current s ≡ ok company
    → (may_create current.role body.role ≡ ok tt)
      × (company_for current body.company_id ≡ ok company)
unfolding check_create
check_create_inv t companies body current s company h = ground arith

abbrev created_profile : ℕ → UserCreate → ℕ → Profile
created_profile new_id body company = record {
  id = new_id;
  company_id = some company;
  role = body.role;
  full_name = some (or_empty body.full_name);
}

commit_create_ends :
    (t : Texts) (companies : List ℕ) (new_id : ℕ) (body : UserCreate) (company : ℕ) (s : Accounts)
    → ((commit_create t companies new_id body company s).1 ≡ s)
      ⊎ (((commit_create t companies new_id body company s).0
            ≡ ok (created_profile new_id body company))
          × ((commit_create t companies new_id body company s).1.profiles
              ≡ s.profiles ++ created_profile new_id body company ∷ []))
unfolding commit_create
commit_create_ends t companies new_id body company s =
    elim (Bool-cases (
      any (λ u. (u.id == new_id) || str_eq u.email (t.normalize_email body.email)) s.users
      || not (any (λ c. c == company) companies))) [
        | inl violated ↦ inl (rw violated refl)
        | inr fine ↦ inr (rw fine (refl, refl))
      ]

-- A creation by a caller who is no admin makes a member of the caller's company and no other profile,
-- or changes nothing.
pub create_user_confined :
    (t : Texts) (companies : List ℕ) (new_id : ℕ) (body : UserCreate) (current : Profile)
    (s : Accounts)
    → current.role ≢ admin
    → ((create_user t companies new_id body current s).1 ≡ s)
      ⊎ ((p : Profile) × ((create_user t companies new_id body current s).0 ≡ ok p)
          × ((create_user t companies new_id body current s).1.profiles ≡ s.profiles ++ p ∷ [])
          × (p.role ≡ member)
          × (p.company_id ≡ current.company_id))
unfolding create_user
create_user_confined t companies new_id body current s no_admin =
    elim (Result-cases (check_create t companies body current s)) [
      | inl (e, refused) ↦ inl (rw (refused, create_user) refl)
      | inr (company, checked) ↦
          let (may, whose) = check_create_inv t companies body current s company checked in
          rw (checked, create_user)
            (elim (commit_create_ends t companies new_id body company s) [
              | inl same ↦ inl same
              | inr (answered, added) ↦ inr (
                created_profile new_id body company,
                answered,
                added,
                may_create_member current.role body.role no_admin may,
                sym (company_for_own current body.company_id company no_admin whose),
              )
            ])
    ]
