-- ===== src/Routing/Table.antt =====
-- The routing tables of routing.py: `sim_routing_map`, whose primary key is the ICCID, and
-- `sim_routing_prefix_map`, by the first six digits.
use app_suscriptions_back.Prelude.{
  ℕ, ◌≡◌, refl, Bool, ◌&&◌, Option, none, some, List, [], ◌∷◌, String, filter, arith, ◌==◌, str_eq,
  str_eq_iff, if◌then◌else◌,
}
use app_suscriptions_back.Errors.{Result, ok, ◌>>=◌}
use app_suscriptions_back.Database.{scalar_one_or_none}
use app_suscriptions_back.Routing.Text.{Unicode, route_iccid, routing_prefix}

pub record Route : Type 0 where
  pub iccid : String
  pub provider : String
  pub company_id : ℕ
  pub last_seen_at : ℕ

abbrev pub Table : Type 0
Table = List Route

pub record PrefixRoute : Type 0 where
  pub iccid_prefix : String
  pub provider : String

-- `INSERT … ON CONFLICT (iccid) DO UPDATE`, for one row
unfoldable pub upsert : Route → Table → Table
upsert r [] = r ∷ []
upsert r (x ∷ table) = if str_eq x.iccid r.iccid then r ∷ table else x ∷ upsert r table

unfoldable pub is_route : String → ℕ → Route → Bool
is_route iccid company r = str_eq r.iccid iccid && (r.company_id == company)

module _ (u : Unicode) where
  -- `_upsert_routing`
  unfoldable pub upsert_routing : ℕ → String → String → ℕ → Table → Table
  upsert_routing now iccid provider company = upsert (record {
    iccid = route_iccid u iccid;
    provider = provider;
    company_id = company;
    last_seen_at = now;
  })

  -- `_find_routing`
  unfoldable pub find_routing : String → ℕ → Table → Result (Option Route)
  find_routing iccid company table =
      scalar_one_or_none (filter (is_route (route_iccid u iccid) company) table)

  -- `_find_prefix_routing`: the route is made from the prefix row, and is not stored. A route that
  -- is not stored has no `last_seen_at` yet; nothing reads it.
  unfoldable pub find_prefix_routing : String → ℕ → List PrefixRoute → Result (Option Route)
  find_prefix_routing iccid company prefixes = elim (routing_prefix u iccid) [
    | none ↦ ok none
    | some p ↦ scalar_one_or_none (filter (λ r. str_eq r.iccid_prefix p) prefixes) >>= λ found.
        elim found [
          | none ↦ ok none
          | some r ↦ ok (
              some (record {
                iccid = route_iccid u iccid;
                provider = r.provider;
                company_id = company;
                last_seen_at = 0;
              }))
        ]
  ]

-- The row of an ICCID, whatever its company: the meaning of a table whose key is the ICCID.
unfoldable pub owner : String → Table → Option Route
owner iccid [] = none
owner iccid (r ∷ table) = if str_eq r.iccid iccid then some r else owner iccid table

-- The primary key: no ICCID has two rows.
abbrev pub HasKey : Table → Type 0
HasKey [] = Unit
HasKey (r ∷ table) = (owner r.iccid table ≡ none) × HasKey table

pub owner-upsert :
    (r : Route) (iccid : String) (table : Table)
    → owner iccid (upsert r table) ≡ (if str_eq r.iccid iccid then some r else owner iccid table)
unfolding owner upsert
owner-upsert r iccid [] = refl
owner-upsert r iccid (x ∷ table) = ground (
  arith,
  owner-upsert r iccid table,
  str_eq_iff x.iccid r.iccid,
  str_eq_iff x.iccid iccid,
  str_eq_iff r.iccid iccid,
)

pub upsert-HasKey : (r : Route) (table : Table) → HasKey table → HasKey (upsert r table)
unfolding owner upsert
upsert-HasKey r [] h = (refl, tt)
upsert-HasKey r (x ∷ table) (fresh, h) = ground (
  arith,
  upsert-HasKey r table h,
  owner-upsert r x.iccid table,
  str_eq_iff x.iccid r.iccid,
  str_eq_iff r.iccid x.iccid,
)

filter_absent :
    (iccid : String) (company : ℕ) (table : Table)
    → owner iccid table ≡ none
    → filter (is_route iccid company) table ≡ []
unfolding owner is_route
filter_absent iccid company [] h = refl
filter_absent iccid company (r ∷ table) h = ground (arith, filter_absent iccid company table)

-- of this company, or none
abbrev pub owned_by : ℕ → Option Route → Option Route
owned_by company none = none
owned_by company (some r) = if r.company_id == company then some r else none

find_owner :
    (iccid : String) (company : ℕ) (table : Table)
    → HasKey table
    → scalar_one_or_none (filter (is_route iccid company) table)
      ≡ ok (owned_by company (owner iccid table))
unfolding owner is_route scalar_one_or_none
find_owner iccid company [] h = refl
find_owner iccid company (r ∷ table) (fresh, h) = ground (
  arith,
  find_owner iccid company table h,
  filter_absent iccid company table,
  str_eq_iff r.iccid iccid,
)

module _ (u : Unicode) where
  -- On a table that keeps its key, looking up an ICCID never raises, and gives the row of its key if
  -- that belongs to the company.
  pub find_routing-eq-owner :
      (iccid : String) (company : ℕ) (table : Table)
      → HasKey table
      → find_routing u iccid company table
        ≡ ok (owned_by company (owner (route_iccid u iccid) table))
  unfolding find_routing
  find_routing-eq-owner iccid company table h = find_owner (route_iccid u iccid) company table h

  -- After `_upsert_routing`, the ICCID is found by its new company and by no other, also if another
  -- company had it before; every other ICCID is found as before. The key of the table is kept.
  pub find-upsert_routing :
      (now : ℕ) (iccid provider : String) (company : ℕ) (asked : String) (by : ℕ) (table : Table)
      → HasKey table
      → HasKey (upsert_routing u now iccid provider company table)
        × (find_routing u asked by (upsert_routing u now iccid provider company table) ≡ (
            if str_eq (route_iccid u iccid) (route_iccid u asked)
            then (if company == by
                then ok (
                    some (record {
                      iccid = route_iccid u iccid;
                      provider = provider;
                      company_id = company;
                      last_seen_at = now;
                    }))
                else ok none)
            else find_routing u asked by table))
  unfolding upsert_routing
  find-upsert_routing now iccid provider company asked by table h =
      let r : Route = record {
        iccid = route_iccid u iccid;
        provider = provider;
        company_id = company;
        last_seen_at = now;
      } in
      let kept = upsert-HasKey r table h in
      (
        kept,
        ground (
          arith,
          find_routing-eq-owner asked by (upsert r table) kept,
          find_routing-eq-owner asked by table h,
          owner-upsert r (route_iccid u asked) table,
        ),
      )
