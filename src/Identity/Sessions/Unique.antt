-- ===== src/Identity/Sessions/Unique.antt =====
-- Uniqueness of the refresh tokens of auth.py.
use app_suscriptions_back.Prelude.{
  ℕ, String, none, some, List, filter, arith, ltb, str_eq, Bool-cases, inl, inr,
}
use app_suscriptions_back.Errors.{Result-cases}
use app_suscriptions_back.Database.{scalar_one_or_none}
use app_suscriptions_back.Identity.Sessions.{
  User, RefreshToken, Library, Attempt, new_token, has_token, insert_token, delete_token, grant,
  login, refresh, logout,
}
use app_suscriptions_back.Identity.Sessions.Rotation.{
  IsUnique, count_token-delete, count_token-insert,
}

module _ (l : Library) where
  grant-IsUnique :
      (attempt : Attempt) (user_id : ℕ) (tokens before : List RefreshToken)
      → IsUnique tokens
      → IsUnique before
      → IsUnique (grant l attempt user_id tokens before).1
  unfolding grant
  grant-IsUnique attempt user_id tokens before h k token =
      elim (Result-cases (insert_token (new_token l attempt user_id) tokens)) [
        | inl (e, refused) ↦ rw (refused, grant) (k token)
        | inr (tokens', added) ↦
            rw (added, grant)
              (ground (
                arith,
                h token,
                count_token-insert (new_token l attempt user_id) token tokens tokens' added,
              ))
      ]

  delete-IsUnique :
      (gone : String) (tokens : List RefreshToken)
      → IsUnique tokens
      → IsUnique (delete_token gone tokens)
  delete-IsUnique gone tokens h token =
      ground (arith, h token, count_token-delete gone token tokens)

  refresh-IsUnique :
      (attempt : Attempt) (token : String) (tokens : List RefreshToken)
      → IsUnique tokens
      → IsUnique (refresh l attempt token tokens).1
  unfolding refresh
  refresh-IsUnique attempt token tokens h =
      elim (Result-cases (scalar_one_or_none (filter (has_token (l.digest token)) tokens))) [
        | inl (e, several) ↦ rw (several, refresh) h
        | inr (none, read) ↦ rw (read, refresh) h
        | inr (some row, read) ↦
            let kept = delete-IsUnique row.token tokens h in
            elim (Bool-cases (ltb row.expires_at attempt.now)) [
              | inl expired ↦ rw (read, expired, refresh) kept
              | inr valid ↦
                  rw (read, valid, refresh)
                    (grant-IsUnique attempt row.user_id (delete_token row.token tokens) tokens kept
                      h)
            ]
      ]

  login-IsUnique :
      (attempt : Attempt) (email password : String) (users : List User) (tokens : List RefreshToken)
      → IsUnique tokens
      → IsUnique (login l attempt email password users tokens).1
  unfolding login
  login-IsUnique attempt email password users tokens h =
      elim (Result-cases
        (scalar_one_or_none (filter (λ u. str_eq u.email (l.normalize_email email)) users))) [
          | inl (e, several) ↦ rw (several, login) h
          | inr (none, read) ↦ rw (read, login) h
          | inr (some user, read) ↦
              elim (Bool-cases (l.verify_password password user.hashed_password)) [
                | inl right ↦
                    rw (read, right, login) (grant-IsUnique attempt user.id tokens tokens h h)
                | inr wrong ↦ rw (read, wrong, login) h
              ]
        ]

  logout-IsUnique :
      (token : String) (tokens : List RefreshToken)
      → IsUnique tokens
      → IsUnique (logout l token tokens).1
  unfolding logout
  logout-IsUnique token tokens h =
      elim (Result-cases (scalar_one_or_none (filter (has_token (l.digest token)) tokens))) [
        | inl (e, several) ↦ rw (several, logout) h
        | inr (none, read) ↦ rw (read, logout) h
        | inr (some row, read) ↦ rw (read, logout) (delete-IsUnique row.token tokens h)
      ]

  -- Logins, refreshes and logouts keep every digest at one row, also where a commit fails.
  pub sessions-IsUnique :
      (attempt : Attempt) (email password token : String) (users : List User)
      (tokens : List RefreshToken)
      → IsUnique tokens
      → IsUnique (login l attempt email password users tokens).1
        × IsUnique (refresh l attempt token tokens).1
        × IsUnique (logout l token tokens).1
  sessions-IsUnique attempt email password token users tokens h = (
    login-IsUnique attempt email password users tokens h,
    refresh-IsUnique attempt token tokens h,
    logout-IsUnique token tokens h,
  )
