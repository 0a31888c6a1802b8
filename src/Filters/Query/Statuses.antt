-- ===== src/Filters/Query/Statuses.antt =====
-- The statuses that a search asks a provider for, and the merge of its filters.
use app_suscriptions_back.Prelude.{
  ◌≡◌, refl, String, false, not, ◌&&◌, Option, none, some, List, [], ◌∷◌, str_eq, if◌then◌else◌,
  str_eq_iff, str_eq_refl, map, filter, arith,
}
use app_suscriptions_back.Domain.{is_nonempty}
use app_suscriptions_back.Filters.Query.{
  ProviderFilters, is_member, dedupe, given, search_status_values, or_none,
}

-- no text stands twice
abbrev pub IsDistinct : List String → Type 0
IsDistinct [] = Unit
IsDistinct (x ∷ xs) = (is_member x xs ≡ false) × IsDistinct xs

pub is_member-dedupe :
    (x : String) (seen xs : List String)
    → is_member x (dedupe seen xs) ≡ (is_member x xs && not (is_member x seen))
unfolding is_member dedupe
is_member-dedupe x seen [] = refl
is_member-dedupe x seen (y ∷ xs) =
    ground (arith, is_member-dedupe x seen xs, is_member-dedupe x (y ∷ seen) xs, str_eq_iff y x)

pub dedupe-IsDistinct : (seen xs : List String) → IsDistinct (dedupe seen xs)
unfolding is_member dedupe
dedupe-IsDistinct seen [] = tt
dedupe-IsDistinct seen (x ∷ xs) = ground (
  arith,
  dedupe-IsDistinct seen xs,
  dedupe-IsDistinct (x ∷ seen) xs,
  is_member-dedupe x (x ∷ seen) xs,
  str_eq_refl x,
)

-- what is asked for these statuses: each of them, or all SIMs at once when there is none
abbrev pub asked_for : List String → List (Option String)
asked_for statuses = if is_nonempty statuses then map (λ s. some s) statuses else none ∷ []

or_none-asked : (statuses : List String) → or_none statuses ≡ asked_for statuses
or_none-asked [] = refl
or_none-asked (s ∷ statuses) = refl

is_member-filter :
    (x : String) (xs : List String)
    → is_member x (filter (λ s. not (str_eq s "")) xs) ≡ (is_member x xs && not (str_eq x ""))
unfolding is_member
is_member-filter x [] = refl
is_member-filter x (y ∷ xs) = ground (arith, is_member-filter x xs, str_eq_iff y x)

-- A search asks a provider, each once, for exactly the statuses of the request that are not empty
-- texts, in `status` or in `statuses`, and when there is none, once for all SIMs and nothing else.
pub search_status_values-exact :
    (own : ProviderFilters)
    → (wanted : List String) × (search_status_values own ≡ asked_for wanted)
      × IsDistinct wanted
      × ((s : String)
          → is_member s wanted ≡ (is_member s (given own.status own.statuses) && not (str_eq s "")))
unfolding search_status_values is_member
search_status_values-exact own =
    let wanted = filter (λ s. not (str_eq s "")) (given own.status own.statuses) in
    (
      dedupe [] wanted,
      or_none-asked (dedupe [] wanted),
      dedupe-IsDistinct [] wanted,
      λ s.
          ground (
            arith,
            is_member-dedupe s [] wanted,
            is_member-filter s (given own.status own.statuses),
          ),
    )
