-- ===== src/Routing/Resolve/Outcome.antt =====
-- What the callers of `_resolve_routing_or_discover` rely on.
use app_suscriptions_back.Prelude.{
  ℕ, ◌≡◌, ◌≤◌, ◌<◌, ◌+◌, ◌⊎◌, refl, String, Bool, true, Option, none, some, List, [], ◌∷◌, arith,
  str_eq, str_eq_iff, Option-cases, inl, inr, ==_iff, length, filter,
}
use app_suscriptions_back.Errors.{Result, ok, err, cancelled}
use app_suscriptions_back.Database.{scalar_one_or_none}
use app_suscriptions_back.Domain.{Subscription}
use app_suscriptions_back.Routing.Text.{
  Unicode, route_iccid, route_iccid_idempotent, routing_prefix,
}
use app_suscriptions_back.Routing.Table.{
  Route, Table, PrefixRoute, HasKey, is_route, find_routing, find_prefix_routing,
  find_routing-eq-owner,
}
use app_suscriptions_back.Routing.NegativeCache.{Key, Cache, hit, record_miss, ttl, hit-record_miss}
use app_suscriptions_back.Routing.Resolve.{
  Request, unresolved, not_persisted, discover, conclude, discover_or_miss,
  resolve_routing_or_discover,
}
use app_suscriptions_back.Routing.Resolve.Discover.{Routed, discover-Routed, discover_ends}

scalar_sel :
    {A : Type 0} (sel : A → Bool) (xs : List A) (x : A)
    → scalar_one_or_none (filter sel xs) ≡ ok (some x)
    → sel x ≡ true
unfolding scalar_one_or_none
scalar_sel sel [] x h = ground arith
scalar_sel sel (y ∷ ys) x h = ground (arith, scalar_sel sel ys x)

-- The row is the one that was asked for, and of the caller's company.
abbrev pub IsFor : Unicode → String → ℕ → Route → Type 0
IsFor u iccid company r = (r.iccid ≡ route_iccid u iccid) × (r.company_id ≡ company)

module _ (u : Unicode) (iccid : String) (company : ℕ) where
  find_routing-IsFor :
      (table : Table) (r : Route)
      → find_routing u iccid company table ≡ ok (some r)
      → IsFor u iccid company r
  unfolding find_routing is_route
  find_routing-IsFor table r h =
      let sel = scalar_sel (is_route (route_iccid u iccid) company) table r h in
      ground (arith, sel, str_eq_iff r.iccid (route_iccid u iccid), ==_iff r.company_id company)

  find_prefix_routing-IsFor :
      (prefixes : List PrefixRoute) (r : Route)
      → find_prefix_routing u iccid company prefixes ≡ ok (some r)
      → IsFor u iccid company r
  unfolding find_prefix_routing
  find_prefix_routing-IsFor prefixes r h = ground arith

-- no prefix twice
abbrev pub HasPrefixKey : List PrefixRoute → Type 0
HasPrefixKey prefixes = (p : String) → length (filter (λ r. str_eq r.iccid_prefix p) prefixes) ≤ 1

scalar_unique :
    {A : Type 0} (xs : List A) → length xs ≤ 1 → (o : Option A) × (scalar_one_or_none xs ≡ ok o)
unfolding scalar_one_or_none
scalar_unique [] h = (none, refl)
scalar_unique (x ∷ []) h = (some x, refl)
scalar_unique (x ∷ y ∷ xs) h = absurd (omega arith)

find_prefix_routing_unique :
    (u : Unicode) (iccid : String) (company : ℕ) (prefixes : List PrefixRoute)
    → HasPrefixKey prefixes
    → (o : Option Route) × (find_prefix_routing u iccid company prefixes ≡ ok o)
unfolding find_prefix_routing
find_prefix_routing_unique u iccid company prefixes h =
    elim (Option-cases (routing_prefix u iccid)) [
      | inl short ↦ (none, ground (arith, short))
      | inr (p, long) ↦
          let (o, e) = scalar_unique (filter (λ r. str_eq r.iccid_prefix p) prefixes) (h p) in
          elim (Option-cases o) [
            | inl nothing ↦ (none, ground (arith, long, e, nothing))
            | inr (r, found) ↦ (
              some (record {
                iccid = route_iccid u iccid;
                provider = r.provider;
                company_id = company;
                last_seen_at = 0;
              }),
              ground (arith, long, e, found),
            )
          ]
    ]

module _ {Creds : Type 0} (u : Unicode) (q : Request Creds) (iccid : String) (company : ℕ) where
  -- the end of the resolution, after a discovery
  abbrev after_discovery :
      Result (Table × Option Subscription)
      → Table
      → Cache
      → Result (Route × Option Subscription) × Table × Cache
  after_discovery (err e) table cache = (err e, table, cache)
  after_discovery (ok (table', found)) table cache = conclude u q iccid company found table' cache

  conclude-IsFor :
      (found : Option Subscription) (table : Table) (cache : Cache) (r : Route)
      (prefetched : Option Subscription)
      → (conclude u q iccid company found table cache).0 ≡ ok (r, prefetched)
      → IsFor u iccid company r
  unfolding conclude unresolved not_persisted
  conclude-IsFor none table cache r prefetched h = ground arith
  conclude-IsFor (some f) table cache r prefetched h = ground (
    arith,
    find_routing-IsFor u (route_iccid u iccid) company table r,
    route_iccid_idempotent u iccid,
  )

  -- the same after a discovery, which may be cancelled
  discovered-IsFor :
      (left : Result (Table × Option Subscription)) (table : Table) (cache : Cache) (r : Route)
      (prefetched : Option Subscription)
      → (after_discovery left table cache).0 ≡ ok (r, prefetched)
      → IsFor u iccid company r
  discovered-IsFor (err e) table cache r prefetched h = cc
  discovered-IsFor (ok (table', found)) table cache r prefetched h =
      conclude-IsFor found table' cache r prefetched h

  -- Whatever the tables, the caches and the providers hold, a route that the resolution returns is
  -- one of the caller's company, for the ICCID that was asked.
  pub resolve_isolates :
      (prefixes : List PrefixRoute) (table : Table) (cache : Cache) (r : Route)
      (prefetched : Option Subscription)
      → (resolve_routing_or_discover u q prefixes iccid company table cache).0 ≡ ok (r, prefetched)
      → IsFor u iccid company r
  unfolding resolve_routing_or_discover discover_or_miss unresolved
  resolve_isolates prefixes table cache r prefetched h =
      let key : Key = (company, route_iccid u iccid) in
      ground (
        arith,
        find_routing-IsFor u (route_iccid u iccid) company table r,
        find_prefix_routing-IsFor u (route_iccid u iccid) company prefixes r,
        discovered-IsFor (discover u q (route_iccid u iccid) company table) table
            (hit q.checked_at key cache).1 r prefetched,
        route_iccid_idempotent u iccid,
      )

  -- a discovery that found a SIM has routed it
  conclude_ends :
      (found : Option Subscription) (table : Table) (cache : Cache)
      → Routed u q.db_now company (route_iccid u iccid) (table, found)
      → ((conclude u q iccid company found table cache).0 ≡ unresolved (route_iccid u iccid))
        ⊎ ((x : Route × Option Subscription) × ((conclude u q iccid company found table cache).0
              ≡ ok x))
  unfolding conclude
  conclude_ends none table cache h = inl refl
  conclude_ends (some f) table cache (key, (r, found, own)) = inr (
    (r, some f),
    ground (
      arith,
      find_routing-eq-owner u (route_iccid u iccid) company table key,
      found,
      own,
      route_iccid_idempotent u iccid,
      ==_iff company company,
    ),
  )

  discovered_ends :
      (left : Result (Table × Option Subscription)) (table : Table) (cache : Cache)
      → (left ≡ err cancelled) ⊎ ((s : Table × Option Subscription) × (left ≡ ok s))
      → ((s : Table × Option Subscription)
          → left ≡ ok s
          → Routed u q.db_now company (route_iccid u iccid) s)
      → ((after_discovery left table cache).0 ≡ unresolved (route_iccid u iccid))
        ⊎ ((after_discovery left table cache).0 ≡ err cancelled)
        ⊎ ((x : Route × Option Subscription) × ((after_discovery left table cache).0 ≡ ok x))
  discovered_ends (err e) table cache ended routed = ground (arith, ended)
  discovered_ends (ok (table', found)) table cache ended routed =
      elim (conclude_ends found table' cache (routed (table', found) refl)) [
        | inl nobody ↦ inl nobody
        | inr known ↦ inr (inr known)
      ]

  -- On tables that keep their keys, a resolution returns a route, or raises the error of an ICCID
  -- that nobody knows, or is cancelled; in particular a SIM that discovery found always has its
  -- route, and an error of a provider is never the error of the resolution.
  pub resolve_ends :
      (prefixes : List PrefixRoute) (table : Table) (cache : Cache)
      → HasKey table
      → HasPrefixKey prefixes
      → ((resolve_routing_or_discover u q prefixes iccid company table cache).0
          ≡ unresolved (route_iccid u iccid))
        ⊎ ((resolve_routing_or_discover u q prefixes iccid company table cache).0 ≡ err cancelled)
        ⊎ ((found : Route × Option Subscription) × ((resolve_routing_or_discover u q prefixes iccid
                company table cache).0
              ≡ ok found))
  unfolding resolve_routing_or_discover discover_or_miss conclude
  resolve_ends prefixes table cache key prefix_key =
      let key_of : Key = (company, route_iccid u iccid) in
      let last =
        discovered_ends (discover u q (route_iccid u iccid) company table) table
          (hit q.checked_at key_of cache).1 (discover_ends u q (route_iccid u iccid) company table)
          (discover-Routed u q (route_iccid u iccid) company table (route_iccid_idempotent u iccid)
            key) in
      ground (
        arith,
        find_routing-eq-owner u (route_iccid u iccid) company table key,
        find_prefix_routing_unique u (route_iccid u iccid) company prefixes prefix_key,
        last,
      )

  -- For a minute after a miss was recorded, a resolution that finds no route raises at once: it
  -- asks no provider, whichever there are, and leaves the table and the cache alone.
  pub resolve_after_miss :
      (prefixes : List PrefixRoute) (table : Table) (cache : Cache) (missed_at : ℕ)
      → find_routing u (route_iccid u iccid) company table ≡ ok none
      → find_prefix_routing u (route_iccid u iccid) company prefixes ≡ ok none
      → q.checked_at < missed_at + ttl
      → resolve_routing_or_discover u q prefixes iccid company table
          (record_miss missed_at (company, route_iccid u iccid) cache)
        ≡ (
          unresolved (route_iccid u iccid),
          table,
          record_miss missed_at (company, route_iccid u iccid) cache,
        )
  unfolding resolve_routing_or_discover discover_or_miss hit
  resolve_after_miss prefixes table cache missed_at no_route no_prefix soon = ground (
    arith,
    no_route,
    no_prefix,
    hit-record_miss missed_at q.checked_at (company, route_iccid u iccid) cache,
  )
