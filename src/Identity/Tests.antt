-- ===== src/Identity/Tests.antt =====
-- Sessions and users on concrete tables.
use app_suscriptions_back.Prelude.{
  ◌≡◌, ◌≢◌, ◌⊎◌, refl, false, none, some, List, [], ◌∷◌, ◌++◌, map, any, arith, str_eq,
}
use app_suscriptions_back.Errors.{ok, err, http}
use app_suscriptions_back.Identity.{Profile, manager, member, admin}
use app_suscriptions_back.Identity.Users.{Texts, Accounts, UserCreate, UserUpdate}
use app_suscriptions_back.Identity.Users.Create.{create_user}
use app_suscriptions_back.Identity.Users.Update.{update_user}
use app_suscriptions_back.Identity.Users.Create.Created.{create_user_confined}
use app_suscriptions_back.Identity.Users.Update.Confined.{standing, HasKey, update_user_confined}
use app_suscriptions_back.Identity.Sessions.{RefreshToken, Library, Attempt, has_token, refresh}
use app_suscriptions_back.Identity.Sessions.Rotation.{IsUnique, refresh_once}

-- a library whose texts stand for themselves
abbrev plain : Library
plain = record {
  normalize_email = λ s. s;
  verify_password = λ p h. str_eq p h;
  digest = λ s. s;
  create_access_token = λ user secret. secret;
}

abbrev attempt : Attempt
attempt = record { now = 5; raw = "new"; jwt_secret = some "secret" }

abbrev later : Attempt
later = record { now = 9; raw = "newer"; jwt_secret = some "secret" }

abbrev tokens : List RefreshToken
tokens = record { user_id = 1; token = "old"; expires_at = 8; created_at = 2 } ∷ []

tokens-IsUnique : IsUnique tokens
tokens-IsUnique token = ground arith

new_absent : any (has_token "new") tokens ≡ false
new_absent = refl

refresh_once_example :
    refresh plain later "old" (refresh plain attempt "old" tokens).1
    ≡ (err (http 401 "Invalid refresh token"), (refresh plain attempt "old" tokens).1)
refresh_once_example = refresh_once plain attempt later "old" tokens tokens-IsUnique new_absent

abbrev texts : Texts
texts = record {
  normalize_email = λ s. s;
  lower = λ s. s;
  strip = λ s. s;
  hash_password = λ s. s;
  company_text = λ c. "7";
}

abbrev boss : Profile
boss = record { id = 1; company_id = some 7; role = manager; full_name = none }

abbrev worker : Profile
worker = record { id = 2; company_id = some 7; role = member; full_name = none }

abbrev accounts : Accounts
accounts = record {
  users =
      record { id = 1; email = "a@b"; hashed_password = "pw" }
      ∷ record { id = 2; email = "c@d"; hashed_password = "pw" }
      ∷ [];
  profiles = boss ∷ worker ∷ [];
}

boss_is_no_admin : boss.role ≢ admin
boss_is_no_admin = cc

accounts-HasKey : HasKey accounts.profiles
accounts-HasKey user_id = ground arith

abbrev new_worker : UserCreate
new_worker = record {
  email = "e@f";
  password = "pw";
  full_name = none;
  role = member;
  company_id = some 9;
}

create_user_confined_example :
    ((create_user texts (7 ∷ []) 3 new_worker boss accounts).1 ≡ accounts)
    ⊎ ((p : Profile) × ((create_user texts (7 ∷ []) 3 new_worker boss accounts).0 ≡ ok p)
        × ((create_user texts (7 ∷ []) 3 new_worker boss accounts).1.profiles
            ≡ (boss ∷ worker ∷ []) ++ p ∷ [])
        × (p.role ≡ member)
        × (p.company_id ≡ some 7))
create_user_confined_example =
    create_user_confined texts (7 ∷ []) 3 new_worker boss accounts boss_is_no_admin

abbrev promotion : UserUpdate
promotion = record {
  email = some "g@h";
  password = some "new";
  full_name = some "W";
  role = some member;
  company_id = some "9";
}

update_user_confined_example :
    map standing (update_user texts (7 ∷ []) 2 promotion boss accounts).1.profiles
    ≡ (1, some 7, manager) ∷ (2, some 7, member) ∷ []
update_user_confined_example =
    update_user_confined texts (7 ∷ []) 2 promotion boss accounts boss_is_no_admin accounts-HasKey
