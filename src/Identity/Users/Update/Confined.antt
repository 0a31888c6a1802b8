-- ===== src/Identity/Users/Update/Confined.antt =====
-- What the callers of users.py who are no admins can change.
use app_suscriptions_back.Prelude.{
  ℕ, ◌≤◌, ◌≡◌, ◌≢◌, refl, ap, sym, subst, Bool, true, false, String, Option, none, some, List, [],
  ◌∷◌, length, map, any, filter, arith, ◌⊎◌, ◌==◌, Bool-cases, inl, inr,
}
use app_suscriptions_back.Errors.{ok, Result-cases}
use app_suscriptions_back.Database.{scalar_one_or_none, update_where}
use app_suscriptions_back.Identity.{
  Role, public, admin, manager, member, Profile, role_eq, require_roles,
}
use app_suscriptions_back.Identity.Users.{Texts, Accounts, UserUpdate}
use app_suscriptions_back.Identity.Users.Update.{
  is_editable, may_edit, new_company, check_update, edit_profile, takes_email, commit_update,
  update_user,
}

-- where a profile stands: its id, its company and its role
abbrev pub Standing : Type 0
Standing = ℕ × Option ℕ × Role

abbrev pub standing : Profile → Standing
standing p = (p.id, p.company_id, p.role)

abbrev pub has_id : ℕ → Profile → Bool
has_id user_id p = p.id == user_id

-- no id twice
abbrev pub HasKey : List Profile → Type 0
HasKey profiles = (user_id : ℕ) → length (filter (has_id user_id) profiles) ≤ 1

module _ (user_id : ℕ) (sel : Profile → Bool)
    (within : (p : Profile) → sel p ≡ true → has_id user_id p ≡ true)
    (set : Profile → Profile) where
  fewer :
      (profiles : List Profile)
      → length (filter sel profiles) ≤ length (filter (has_id user_id) profiles)
  fewer [] = omega arith
  fewer (p ∷ profiles) = ground (arith, fewer profiles, within p)

  untouched :
      (profiles : List Profile)
      → length (filter (has_id user_id) profiles) ≤ 0
      → update_where (has_id user_id) set profiles ≡ profiles
  unfolding update_where
  untouched [] h = refl
  untouched (p ∷ profiles) h = ground (arith, untouched profiles)

  standing_kept :
      (profiles : List Profile) (target : Profile)
      → length (filter (has_id user_id) profiles) ≤ 1
      → filter sel profiles ≡ target ∷ []
      → standing (set target) ≡ standing target
      → map standing (update_where (has_id user_id) set profiles) ≡ map standing profiles
  unfolding update_where
  standing_kept [] target h e k = refl
  standing_kept (p ∷ profiles) target h e k = elim (Bool-cases (has_id user_id p)) [
    | inl mine ↦ elim (Bool-cases (sel p)) [
      | inl chosen ↦
          let same : p ≡ target = ground arith in
          let rest = untouched profiles (ground arith) in
          let kept : standing (set p) ≡ standing p = rw same k in
          rw (mine, rest) (ap (λ x. x ∷ map standing profiles) kept)
      | inr skipped ↦
          let one : length (filter sel profiles) ≡ 1 =
            ground (arith, ap (length {A = Profile}) e) in
          let two : length (filter (has_id user_id) profiles) ≤ 0 = ground arith in
          absurd (omega (arith, fewer profiles, one, two))
    ]
    | inr other ↦
        let skipped : sel p ≡ false = ground (arith, within p) in
        rw other (
          ap (λ xs. standing p ∷ xs)
            (standing_kept profiles target (rw other at h) (rw skipped at e) k))
  ]

scalar_rows :
    (sel : Profile → Bool) (profiles : List Profile) (target : Profile)
    → scalar_one_or_none (filter sel profiles) ≡ ok (some target)
    → filter sel profiles ≡ target ∷ []
unfolding scalar_one_or_none
scalar_rows sel profiles target h = go (filter sel profiles) h
  where
    go : (rows : List Profile) → scalar_one_or_none rows ≡ ok (some target) → rows ≡ target ∷ []
    go [] e = ground arith
    go (x ∷ []) e = ground arith
    go (x ∷ y ∷ rows) e = ground arith

role_member : (r : Role) → role_eq r member ≡ true → r ≡ member
role_member public h = ground arith
role_member admin h = ground arith
role_member manager h = ground arith
role_member member h = refl

may_edit_member :
    (target : Profile) (role : Option Role)
    → may_edit manager target role ≡ ok tt
    → (target.role ≡ member) × ((role ≡ none) ⊎ (role ≡ some member))
unfolding may_edit
may_edit_member target none h = ground (arith, role_member target.role)
may_edit_member target (some r) h = ground (arith, role_member target.role, role_member r)

-- what the checks of an update have found
record IsChecked (current : Profile) (user_id : ℕ) (body : UserUpdate) (s : Accounts)
    (company : Option ℕ) : Type 0 where
  target : Profile
  found : scalar_one_or_none (filter (is_editable current user_id) s.profiles) ≡ ok (some target)
  editable : may_edit current.role target body.role ≡ ok tt

role_manager :
    (current checked : Profile)
    → current.role ≢ admin
    → require_roles (admin ∷ manager ∷ []) current ≡ ok checked
    → current.role ≡ manager
unfolding require_roles
role_manager current checked no_admin h = go current.role refl
  where
    go : (r : Role) → current.role ≡ r → current.role ≡ manager
    go public e = absurd (let f = rw e at h in ground arith)
    go admin e = absurd (no_admin e)
    go manager e = e
    go member e = absurd (let f = rw e at h in ground arith)

manager_company :
    (t : Texts) (companies : List ℕ) (user_id : ℕ) (body : UserUpdate) (asked : Option String)
    (company : Option ℕ)
    → new_company t companies user_id body manager asked ≡ ok company
    → company ≡ none
unfolding new_company
manager_company t companies user_id body none company h = ground arith
manager_company t companies user_id body (some text) company h = ground arith

check_update_inv :
    (t : Texts) (companies : List ℕ) (user_id : ℕ) (body : UserUpdate) (current : Profile)
    (s : Accounts) (email : Option String) (company : Option ℕ)
    → check_update t companies user_id body current s ≡ ok (email, company)
    → (current.role ≢ admin)
    → (current.role ≡ manager) × (company ≡ none) × IsChecked current user_id body s company
unfolding check_update
check_update_inv t companies user_id body current s email company h no_admin =
    elim (Result-cases (require_roles (admin ∷ manager ∷ []) current)) [
      | inl (e, refused) ↦ absurd (let f = rw (refused, check_update) at h in ground arith)
      | inr (checked, allowed) ↦
          let is_manager = role_manager current checked no_admin allowed in
          elim (Result-cases
            (scalar_one_or_none (filter (is_editable current user_id) s.profiles))) [
              | inl (e, several) ↦
                  absurd (let f = rw (allowed, several, check_update) at h in ground arith)
              | inr (none, nothing) ↦
                  absurd (let f = rw (allowed, nothing, check_update) at h in ground arith)
              | inr (some target, found) ↦
                  let rest = rw (allowed, found, check_update) at h in
                  (
                    is_manager,
                    manager_company t companies user_id body body.company_id company (
                        subst
                          (λ r. new_company t companies user_id body r body.company_id ≡ ok company)
                          is_manager (ground arith)),
                    record { target = target; found = found; editable = ground arith },
                  )
            ]
    ]

standing-edit_profile :
    (t : Texts) (companies : List ℕ) (user_id : ℕ) (body : UserUpdate) (target : Profile)
    → may_edit manager target body.role ≡ ok tt
    → standing (edit_profile t companies user_id body none target) ≡ standing target
unfolding edit_profile
standing-edit_profile t companies user_id body target may =
    let (was_member, asked) = may_edit_member target body.role may in
    elim asked [
      | inl unasked ↦ rw unasked refl
      | inr as_member ↦ rw as_member (ap (λ r. (target.id, target.company_id, r)) (sym was_member))
    ]

is_editable-has_id :
    (current : Profile) (user_id : ℕ) (p : Profile)
    → is_editable current user_id p ≡ true
    → has_id user_id p ≡ true
unfolding is_editable
is_editable-has_id current user_id p h = ground arith

-- No update by a caller who is no admin changes the company or the role of any profile, whatever the
-- body asks for, and none adds or removes a profile.
pub update_user_confined :
    (t : Texts) (companies : List ℕ) (user_id : ℕ) (body : UserUpdate) (current : Profile)
    (s : Accounts)
    → current.role ≢ admin
    → HasKey s.profiles
    → map standing (update_user t companies user_id body current s).1.profiles
      ≡ map standing s.profiles
unfolding update_user commit_update
update_user_confined t companies user_id body current s no_admin key =
    elim (Result-cases (check_update t companies user_id body current s)) [
      | inl (e, refused) ↦ rw (refused, update_user) refl
      | inr ((email, company), checked) ↦
          let (is_manager, no_company, c) =
            check_update_inv t companies user_id body current s email company checked no_admin in
          let may : may_edit manager c.target body.role ≡ ok tt =
            subst (λ r. may_edit r c.target body.role ≡ ok tt) is_manager c.editable in
          let kept =
            standing_kept user_id (is_editable current user_id) (is_editable-has_id current user_id)
              (edit_profile t companies user_id body none) s.profiles c.target (key user_id)
              (scalar_rows (is_editable current user_id) s.profiles c.target c.found)
              (standing-edit_profile t companies user_id body c.target may) in
          elim (Bool-cases (any (takes_email t companies user_id body email) s.users)) [
            | inl taken ↦ rw (checked, taken, update_user) refl
            | inr free ↦ rw (checked, free, no_company, update_user) kept
          ]
    ]
