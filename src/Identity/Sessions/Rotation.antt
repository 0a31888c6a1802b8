-- ===== src/Identity/Sessions/Rotation.antt =====
-- How often a refresh token of auth.py can be used.
use app_suscriptions_back.Prelude.{
  ℕ, ◌≤◌, ◌≡◌, refl, ap, subst, false, String, List, [], ◌∷◌, ◌++◌, length, any, filter,
  filter-append, length-append, arith, ltb, str_eq, str_eq_iff, if◌then◌else◌, Bool-cases, inl, inr,
}
use app_suscriptions_back.Errors.{ok, err, http}
use app_suscriptions_back.Database.{scalar_one_or_none}
use app_suscriptions_back.Identity.Sessions.{
  RefreshToken, Library, Attempt, new_token, has_token, insert_token, delete_token, grant, refresh,
  logout,
}

abbrev pub count_token : String → List RefreshToken → ℕ
count_token token tokens = length (filter (has_token token) tokens)

-- no digest twice
abbrev pub IsUnique : List RefreshToken → Type 0
IsUnique tokens = (token : String) → count_token token tokens ≤ 1

pub count_token-delete :
    (gone token : String) (tokens : List RefreshToken)
    → count_token token (delete_token gone tokens)
      ≡ (if str_eq gone token then 0 else count_token token tokens)
unfolding delete_token
count_token-delete gone token [] = ground arith
count_token-delete gone token (row ∷ tokens) = ground (
  arith,
  count_token-delete gone token tokens,
  str_eq_iff row.token gone,
  str_eq_iff row.token token,
  str_eq_iff gone token,
)

any-count_token :
    (token : String) (tokens : List RefreshToken)
    → any (has_token token) tokens ≡ false
    → count_token token tokens ≡ 0
any-count_token token [] h = refl
any-count_token token (row ∷ tokens) h = ground (arith, any-count_token token tokens)

pub count_token-insert :
    (row : RefreshToken) (token : String) (tokens tokens' : List RefreshToken)
    → insert_token row tokens ≡ ok tokens'
    → (count_token token tokens' ≡ (if str_eq row.token token then 1 else count_token token tokens))
unfolding insert_token
count_token-insert row token tokens tokens' h =
    let free : any (has_token row.token) tokens ≡ false = ground arith in
    let added : tokens' ≡ tokens ++ row ∷ [] = ground arith in
    rw added (
      ground (
        arith,
        filter-append (has_token token) tokens (row ∷ []),
        length-append (filter (has_token token) tokens) (row ∷ []),
        length-append (filter (has_token token) tokens) [],
        any-count_token row.token tokens free,
        str_eq_iff row.token token,
        λ (e : row.token ≡ token).
            subst (λ t. count_token t tokens ≡ 0) e (any-count_token row.token tokens free),
      ))

insert_token_free :
    (row : RefreshToken) (tokens : List RefreshToken)
    → any (has_token row.token) tokens ≡ false
    → insert_token row tokens ≡ ok (tokens ++ row ∷ [])
unfolding insert_token
insert_token_free row tokens free = rw free refl

filter-head :
    (token : String) (tokens : List RefreshToken) (row : RefreshToken) (rows : List RefreshToken)
    → filter (has_token token) tokens ≡ row ∷ rows
    → row.token ≡ token
filter-head token [] row rows h = ground arith
filter-head token (x ∷ tokens) row rows h =
    ground (arith, filter-head token tokens row rows, str_eq_iff x.token token)

any-delete_token :
    (gone token : String) (tokens : List RefreshToken)
    → any (has_token token) tokens ≡ false
    → any (has_token token) (delete_token gone tokens) ≡ false
unfolding delete_token
any-delete_token gone token [] h = refl
any-delete_token gone token (row ∷ tokens) h = ground (arith, any-delete_token gone token tokens)

no_rows : (rows : List RefreshToken) → length rows ≡ 0 → rows ≡ []
no_rows [] h = refl
no_rows (row ∷ rows) h = absurd (omega arith)

module _ (l : Library) where
  refresh_absent :
      (attempt : Attempt) (token : String) (tokens : List RefreshToken)
      → count_token (l.digest token) tokens ≡ 0
      → refresh l attempt token tokens ≡ (err (http 401 "Invalid refresh token"), tokens)
  unfolding refresh scalar_one_or_none
  refresh_absent attempt token tokens h =
      rw (no_rows (filter (has_token (l.digest token)) tokens) h, refresh) refl

  grant-count_token :
      (attempt : Attempt) (user_id : ℕ) (tokens before : List RefreshToken) (token : String)
      → any (has_token (l.digest attempt.raw)) tokens ≡ false
      → count_token token (grant l attempt user_id tokens before).1
        ≡ (if str_eq (l.digest attempt.raw) token then 1 else count_token token tokens)
  unfolding grant
  grant-count_token attempt user_id tokens before token free =
      let row = new_token l attempt user_id in
      let added : insert_token row tokens ≡ ok (tokens ++ row ∷ []) =
        insert_token_free row tokens free in
      rw (added, grant) (count_token-insert row token tokens (tokens ++ row ∷ []) added)

  used :
      (attempt : Attempt) (token : String) (tokens : List RefreshToken)
      → IsUnique tokens
      → any (has_token (l.digest attempt.raw)) tokens ≡ false
      → count_token (l.digest token) (refresh l attempt token tokens).1 ≡ 0
  unfolding refresh scalar_one_or_none
  used attempt token tokens unique fresh = go (filter (has_token (l.digest token)) tokens) refl
    where
      go :
          (rows : List RefreshToken)
          → filter (has_token (l.digest token)) tokens ≡ rows
          → count_token (l.digest token) (refresh l attempt token tokens).1 ≡ 0
      go [] e = rw (e, refresh) (ap (length {A = RefreshToken}) e)
      go (row ∷ []) e =
          let mine = filter-head (l.digest token) tokens row [] e in
          let gone = count_token-delete row.token (l.digest token) tokens in
          let kept = delete_token row.token tokens in
          let granted =
            grant-count_token attempt row.user_id kept tokens (l.digest token)
              (any-delete_token row.token (l.digest attempt.raw) tokens fresh) in
          let one : count_token (l.digest token) tokens ≡ 1 = ap (length {A = RefreshToken}) e in
          elim (Bool-cases (ltb row.expires_at attempt.now)) [
            | inl expired ↦
                rw (e, expired, refresh)
                  (ground (arith, gone, mine, str_eq_iff row.token (l.digest token)))
            | inr valid ↦
                rw (e, valid, refresh)
                  (ground (
                    arith,
                    granted,
                    gone,
                    mine,
                    one,
                    str_eq_iff row.token (l.digest token),
                    str_eq_iff (l.digest attempt.raw) (l.digest token),
                    λ (same : l.digest attempt.raw ≡ l.digest token).
                        subst (λ t. count_token t tokens ≡ 0) same
                          (any-count_token (l.digest attempt.raw) tokens fresh),
                  ))
          ]
      go (row ∷ other ∷ rows) e = absurd (
          let two = ap (length {A = RefreshToken}) e in omega (arith, unique (l.digest token), two))

  -- On a table that has every digest once, a token that was used, or has expired, is gone: whatever a refresh that drew a fresh token
  -- answered, a second refresh with the same token, by anyone and at any time, raises 401 and
  -- changes nothing.
  pub refresh_once :
      (first later : Attempt) (token : String) (tokens : List RefreshToken)
      → IsUnique tokens
      → any (has_token (l.digest first.raw)) tokens ≡ false
      → refresh l later token (refresh l first token tokens).1
        ≡ (err (http 401 "Invalid refresh token"), (refresh l first token tokens).1)
  refresh_once first later token tokens unique fresh =
      refresh_absent later token _ (used first token tokens unique fresh)

  logout_used :
      (token : String) (tokens : List RefreshToken)
      → IsUnique tokens
      → count_token (l.digest token) (logout l token tokens).1 ≡ 0
  unfolding logout scalar_one_or_none
  logout_used token tokens unique = go (filter (has_token (l.digest token)) tokens) refl
    where
      go :
          (rows : List RefreshToken)
          → filter (has_token (l.digest token)) tokens ≡ rows
          → count_token (l.digest token) (logout l token tokens).1 ≡ 0
      go [] e = rw (e, logout) (ap (length {A = RefreshToken}) e)
      go (row ∷ []) e =
          let mine = filter-head (l.digest token) tokens row [] e in
          let gone = count_token-delete row.token (l.digest token) tokens in
          rw (e, logout) (ground (arith, gone, mine, str_eq_iff row.token (l.digest token)))
      go (row ∷ other ∷ rows) e = absurd (
          let two = ap (length {A = RefreshToken}) e in omega (arith, unique (l.digest token), two))

  -- On a table that has every digest once, after a logout, a refresh with the token raises 401 and changes nothing.
  pub logout_ends :
      (attempt : Attempt) (token : String) (tokens : List RefreshToken)
      → IsUnique tokens
      → refresh l attempt token (logout l token tokens).1
        ≡ (err (http 401 "Invalid refresh token"), (logout l token tokens).1)
  logout_ends attempt token tokens unique =
      refresh_absent attempt token _ (logout_used token tokens unique)
