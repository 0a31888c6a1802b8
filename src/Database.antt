-- ===== src/Database.antt =====
-- What the handlers use of SQLAlchemy and PostgreSQL: a table is the list of its committed rows.
-- A handler that raises before its commit leaves the table that it found (app/database.py opens a
-- session for each request and never commits by itself).
use app_suscriptions_back.Prelude.{
  Bool, Option, none, some, String, List, [], ◌∷◌, str_eq, if◌then◌else◌,
}
use app_suscriptions_back.Errors.{Result, ok, err, other}

-- `result.scalar_one_or_none()`
unfoldable pub scalar_one_or_none {ℓ} : {A : Type ℓ} → List A → Result (Option A)
scalar_one_or_none [] = ok none
scalar_one_or_none (x ∷ []) = ok (some x)
scalar_one_or_none (x ∷ y ∷ rows) = err (other "MultipleResultsFound")

-- `UPDATE … SET … WHERE …`
unfoldable pub update_where {ℓ} : {A : Type ℓ} → (A → Bool) → (A → A) → List A → List A
update_where sel set [] = []
update_where sel set (x ∷ rows) = (if sel x then set x else x) ∷ update_where sel set rows

-- Equality of nullable columns as SQLAlchemy renders `col == value` for a value that is not None.
abbrev pub is_some_str : Option String → String → Bool
is_some_str none s = Bool.false
is_some_str (some t) s = str_eq t s
