-- ===== src/Identity/Sessions.antt =====
-- The sessions of app/identity/routers/auth.py: `login`, `refresh` and `logout` on the tables of
-- users and of refresh tokens. Times are whole microseconds.
use app_suscriptions_back.Prelude.{
  ℕ, ◌+◌, ◌*◌, String, Bool, true, false, not, Option, none, some, List, [], ◌∷◌, ◌++◌, any, filter,
  ltb, str_eq, if◌then◌else◌,
}
use app_suscriptions_back.Errors.{Result, ok, err, http, other}
use app_suscriptions_back.Database.{scalar_one_or_none}
pub mod Rotation
pub mod Unique

pub record User : Type 0 where
  pub id : ℕ
  pub email : String
  pub hashed_password : String

pub record RefreshToken : Type 0 where
  pub user_id : ℕ
  pub token : String
  pub expires_at : ℕ
  pub created_at : ℕ

-- What the module takes from libraries: the normal form of an email, the check of a password, the
-- digest of a raw token and the signing of an access token. A call that reads the clock does so at
-- `now`, and `raw` is the random token that it draws.
pub record Library : Type 0 where
  pub normalize_email : String → String
  pub verify_password : String → String → Bool
  pub digest : String → String
  pub create_access_token : ℕ → String → String

pub record Attempt : Type 0 where
  pub now : ℕ
  pub raw : String
  pub jwt_secret : Option String

-- `REFRESH_TOKEN_EXPIRE_DAYS`
abbrev pub lifetime : ℕ
lifetime = 5 * 24 * 3600 * 1_000_000

pub record TokenResponse : Type 0 where
  pub access_token : String
  pub refresh_token : String

module _ (l : Library) where
  unfoldable pub build_token_response : Attempt → ℕ → Result TokenResponse
  build_token_response attempt user_id = elim attempt.jwt_secret [
    | none ↦ err (http 500 "JWT secret is not configured")
    | some secret ↦ ok (record {
      access_token = l.create_access_token user_id secret;
      refresh_token = attempt.raw;
    })
  ]

  -- the row for a new token
  abbrev pub new_token : Attempt → ℕ → RefreshToken
  new_token attempt user_id = record {
    user_id = user_id;
    token = l.digest attempt.raw;
    expires_at = attempt.now + lifetime;
    created_at = attempt.now;
  }

abbrev pub has_token : String → RefreshToken → Bool
has_token token row = str_eq row.token token

-- `db.add` and the commit: tokens are unique.
unfoldable pub insert_token : RefreshToken → List RefreshToken → Result (List RefreshToken)
insert_token row tokens =
    if any (has_token row.token) tokens
    then err (other "IntegrityError")
    else ok (tokens ++ row ∷ [])

-- `db.delete(record)`
unfoldable pub delete_token : String → List RefreshToken → List RefreshToken
delete_token token = filter (λ row. not (has_token token row))

module _ (l : Library) where
  -- What `login` and `refresh` do last, from the table `tokens`; a commit that fails leaves `before`.
  unfoldable pub grant :
      Attempt → ℕ → List RefreshToken → List RefreshToken → Result TokenResponse × List RefreshToken
  grant attempt user_id tokens before = elim (insert_token (new_token l attempt user_id) tokens) [
    | err e ↦ (err e, before)
    | ok tokens' ↦ (build_token_response l attempt user_id, tokens')
  ]

  -- `POST /login`
  unfoldable pub login :
      Attempt
      → String
      → String
      → List User
      → List RefreshToken
      → Result TokenResponse × List RefreshToken
  login attempt email password users tokens =
      elim (scalar_one_or_none (filter (λ u. str_eq u.email (l.normalize_email email)) users)) [
        | err e ↦ (err e, tokens)
        | ok none ↦ (err (http 401 "Invalid credentials"), tokens)
        | ok (some u) ↦
            if l.verify_password password u.hashed_password
            then grant attempt u.id tokens tokens
            else (err (http 401 "Invalid credentials"), tokens)
      ]

  -- `POST /refresh`
  unfoldable pub refresh :
      Attempt → String → List RefreshToken → Result TokenResponse × List RefreshToken
  refresh attempt token tokens =
      elim (scalar_one_or_none (filter (has_token (l.digest token)) tokens)) [
        | err e ↦ (err e, tokens)
        | ok none ↦ (err (http 401 "Invalid refresh token"), tokens)
        | ok (some row) ↦
            if ltb row.expires_at attempt.now
            then (err (http 401 "Refresh token expired"), delete_token row.token tokens)
            else grant attempt row.user_id (delete_token row.token tokens) tokens
      ]

  -- `POST /logout`
  unfoldable pub logout : String → List RefreshToken → Result (Unit {0}) × List RefreshToken
  logout token tokens = elim (scalar_one_or_none (filter (has_token (l.digest token)) tokens)) [
    | err e ↦ (err e, tokens)
    | ok none ↦ (ok tt, tokens)
    | ok (some row) ↦ (ok tt, delete_token row.token tokens)
  ]
