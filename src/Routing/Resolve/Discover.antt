-- ===== src/Routing/Resolve/Discover.antt =====
-- What discovery leaves in the routing table.
use app_suscriptions_back.Prelude.{
  ℕ, ◌≡◌, ◌⊎◌, refl, ap, subst, String, Option, none, some, List, [], ◌∷◌, arith, str_eq,
  str_eq_iff, str_eq_refl, Bool-cases, inl, inr,
}
use app_suscriptions_back.Errors.{Result, ok, err, cancelled, Result-cases}
use app_suscriptions_back.Domain.{Subscription, Page, Provider, providers, value}
use app_suscriptions_back.Routing.Text.{Unicode, route_iccid}
use app_suscriptions_back.Routing.Table.{
  Route, Table, HasKey, owner, owner-upsert, upsert-HasKey, upsert_routing,
}
use app_suscriptions_back.Routing.Resolve.{
  Request, Call, setup, provider_calls, answers, absorb_subs, absorb_answers, discover,
}

-- the table has a row of this company for the key
abbrev pub IsOwned : String → ℕ → Table → Type 0
IsOwned key company table = (r : Route) × (owner key table ≡ some r) × (r.company_id ≡ company)

module _ (u : Unicode) (db_now : ℕ) (company : ℕ) where
  abbrev new_route : String → String → Route
  new_route iccid name = record {
    iccid = route_iccid u iccid;
    provider = name;
    company_id = company;
    last_seen_at = db_now;
  }

  pub IsOwned-upsert :
      (iccid name key : String) (table : Table)
      → IsOwned key company table
      → IsOwned key company (upsert_routing u db_now iccid name company table)
  unfolding upsert_routing
  IsOwned-upsert iccid name key table (r, found, own) =
      let seen = owner-upsert (new_route iccid name) key table in
      elim (Bool-cases (str_eq (route_iccid u iccid) key)) [
        | inl same ↦ (new_route iccid name, ground (arith, seen), refl)
        | inr other ↦ (r, ground (arith, seen), own)
      ]

  pub IsOwned-self :
      (iccid name : String) (table : Table)
      → IsOwned (route_iccid u iccid) company (upsert_routing u db_now iccid name company table)
  unfolding upsert_routing
  IsOwned-self iccid name table = (
    new_route iccid name,
    ground (
      arith,
      owner-upsert (new_route iccid name) (route_iccid u iccid) table,
      str_eq_refl (route_iccid u iccid),
    ),
    refl,
  )

  pub HasKey-upsert :
      (iccid name : String) (table : Table)
      → HasKey table
      → HasKey (upsert_routing u db_now iccid name company table)
  unfolding upsert_routing
  HasKey-upsert iccid name table h = upsert-HasKey _ table h

  -- a table with its key, which routes the match
  abbrev pub Routed : String → Table × Option Subscription → Type 0
  Routed iccid (table, none) = HasKey table
  Routed iccid (table, some found) = HasKey table × IsOwned iccid company table

  module _ (iccid : String) (reduced : route_iccid u iccid ≡ iccid) where
    absorb_subs-Routed :
        (name : String) (subs : List Subscription) (s : Table × Option Subscription)
        → Routed iccid s
        → Routed iccid (absorb_subs u db_now company iccid name subs s)
    unfolding absorb_subs
    absorb_subs-Routed name [] s h = h
    absorb_subs-Routed name (sub ∷ subs) (table, some found) (key, own) =
        absorb_subs-Routed name subs _
          (HasKey-upsert sub.iccid name table key, IsOwned-upsert sub.iccid name iccid table own)
    absorb_subs-Routed name (sub ∷ subs) (table, none) key =
        elim (Bool-cases (str_eq sub.iccid iccid)) [
          | inl same ↦
              let own : IsOwned iccid company
                  (upsert_routing u db_now sub.iccid name company table) =
                subst
                  (λ k. IsOwned k company (upsert_routing u db_now sub.iccid name company table))
                  (ground (arith, reduced, str_eq_iff sub.iccid iccid))
                  (IsOwned-self sub.iccid name table) in
              rw same (absorb_subs-Routed name subs _ (HasKey-upsert sub.iccid name table key, own))
          | inr other ↦
              rw other (absorb_subs-Routed name subs _ (HasKey-upsert sub.iccid name table key))
        ]

    absorb_answers-Routed :
        (xs : List (String × Result Page)) (s : Table × Option Subscription)
        → Routed iccid s
        → Routed iccid (absorb_answers u db_now company iccid xs s)
    unfolding absorb_answers
    absorb_answers-Routed [] s h = h
    absorb_answers-Routed ((name, err e) ∷ xs) s h = absorb_answers-Routed xs s h
    absorb_answers-Routed ((name, ok (subs, next)) ∷ xs) s h =
        absorb_answers-Routed xs _ (absorb_subs-Routed name subs s h)

ok-left : {A : Type 0} {a : A} (b : A) → ok a ≡ ok b → a ≡ b
ok-left b e = ap (λ r. elim r [ ok x ↦ x | err _ ↦ b ]) e

-- an exception that is no cancellation skips the provider
setup_ends :
    {Creds : Type 0} (q : Request Creds) (name : String)
    → (setup q name ≡ err cancelled) ⊎ ((call : Option (Call Creds)) × (setup q name ≡ ok call))
unfolding setup
setup_ends q name = ground arith

provider_calls_end :
    {Creds : Type 0} (q : Request Creds) (ps : List Provider)
    → (provider_calls q ps ≡ err cancelled)
      ⊎ ((calls : List (Call Creds)) × (provider_calls q ps ≡ ok calls))
unfolding provider_calls
provider_calls_end q [] = inr ([], refl)
provider_calls_end q (p ∷ ps) = elim (setup_ends q (value p)) [
  | inl stopped ↦ inl (rw (provider_calls, stopped) refl)
  | inr (none, skipped) ↦ rw (provider_calls, skipped) (provider_calls_end q ps)
  | inr (some call, ready) ↦ elim (provider_calls_end q ps) [
    | inl stopped ↦ inl (rw (provider_calls, ready, stopped) refl)
    | inr (calls, rest) ↦ inr (call ∷ calls, rw (provider_calls, ready, rest) refl)
  ]
]

pub discover-Routed :
    {Creds : Type 0} (u : Unicode) (q : Request Creds) (iccid : String) (company : ℕ)
    (table : Table)
    → route_iccid u iccid ≡ iccid
    → HasKey table
    → (left : Table × Option Subscription) → discover u q iccid company table ≡ ok left
    → Routed u q.db_now company iccid left
unfolding discover
discover-Routed u q iccid company table reduced key left found =
    elim (Result-cases (provider_calls q providers)) [
      | inl (e, failed) ↦ cc (rw (discover, failed) at found)
      | inr (calls, ready) ↦
          subst (Routed u q.db_now company iccid) (ok-left left (rw (discover, ready) at found)) (
            absorb_answers-Routed u q.db_now company iccid reduced (answers iccid calls)
              (table, none) key)
    ]

-- Discovery ends with its result or is cancelled.
pub discover_ends :
    {Creds : Type 0} (u : Unicode) (q : Request Creds) (iccid : String) (company : ℕ)
    (table : Table)
    → (discover u q iccid company table ≡ err cancelled)
      ⊎ ((left : Table × Option Subscription) × (discover u q iccid company table ≡ ok left))
unfolding discover
discover_ends u q iccid company table = elim (provider_calls_end q providers) [
  | inl stopped ↦ inl (rw (discover, stopped) refl)
  | inr (calls, ready) ↦ inr (
    absorb_answers u q.db_now company iccid (answers iccid calls) (table, none),
    rw (discover, ready) refl,
  )
]
