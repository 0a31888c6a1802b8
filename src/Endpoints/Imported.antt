-- ===== src/Endpoints/Imported.antt =====
-- An import makes its SIMs known.
use app_suscriptions_back.Prelude.{ℕ, ◌≡◌, String, some, List, [], ◌∷◌, All, arith}
use app_suscriptions_back.Errors.{ok}
use app_suscriptions_back.Routing.Text.{route_iccid}
use app_suscriptions_back.Routing.Table.{Route, Table, HasKey, find_routing, find_routing-eq-owner}
use app_suscriptions_back.Routing.Resolve.Discover.{
  IsOwned, IsOwned-upsert, IsOwned-self, HasKey-upsert,
}
use app_suscriptions_back.Listing.{Services}
use app_suscriptions_back.Endpoints.{ImportItem, store_items}

module _ {Creds : Type 0} (s : Services Creds) (company : ℕ) where
  store_items-keeps :
      (items : List ImportItem) (table : Table) (key : String)
      → IsOwned key company table
      → IsOwned key company (store_items s company items table)
  unfolding store_items
  store_items-keeps [] table key h = h
  store_items-keeps (item ∷ items) table key h =
      store_items-keeps items _ key
        (IsOwned-upsert s.python.unicode s.db_now company item.iccid item.provider key table h)

  store_items-stores :
      (items : List ImportItem) (table : Table)
      → All
          (λ item.
            IsOwned
              (route_iccid s.python.unicode item.iccid)
              company
              (store_items s company items table))
          items
  unfolding store_items
  store_items-stores [] table = tt
  store_items-stores (item ∷ items) table = (
    store_items-keeps items _ _
        (IsOwned-self s.python.unicode s.db_now company item.iccid item.provider table),
    store_items-stores items _,
  )

  -- importing keeps the key of the routing table
  pub store_items-HasKey :
      (items : List ImportItem) (table : Table)
      → HasKey table
      → HasKey (store_items s company items table)
  unfolding store_items
  store_items-HasKey [] table h = h
  store_items-HasKey (item ∷ items) table h =
      store_items-HasKey items _
        (HasKey-upsert s.python.unicode s.db_now company item.iccid item.provider table h)

  find_routing-All :
      (asked items : List ImportItem) (table : Table)
      → HasKey table
      → All (λ item. IsOwned (route_iccid s.python.unicode item.iccid) company table) asked
      → All
          (λ item.
            (r : Route) × (find_routing s.python.unicode item.iccid company table ≡ ok (some r))
            × (r.company_id ≡ company))
          asked
  find_routing-All [] items table key h = tt
  find_routing-All (item ∷ asked) items table key ((r, found, own), hs) = (
    (
      r,
      ground
          (arith, find_routing-eq-owner s.python.unicode item.iccid company table key, found, own),
      own,
    ),
    find_routing-All asked items table key hs,
  )

  -- Every SIM of an import is afterwards found by the lookup of the other endpoints as a SIM of the
  -- company, whoever had it before and in whatever form its ICCID was sent.
  pub store_items-finds :
      (items : List ImportItem) (table : Table)
      → HasKey table
      → All
          (λ item.
            (r : Route) × (find_routing s.python.unicode item.iccid company
                (store_items s company items table)
              ≡ ok (some r))
            × (r.company_id ≡ company))
          items
  store_items-finds items table key =
      find_routing-All items items (store_items s company items table)
        (store_items-HasKey items table key) (store_items-stores items table)
