-- ===== src/Listing/Routed.antt =====
-- What a listing leaves in the routing table: the SIMs that it stored.
use app_suscriptions_back.Prelude.{
  ◌≡◌, refl, ℕ, String, Option, none, some, List, [], ◌∷◌, ◌++◌, map, All, All-append, arith,
  if◌then◌else◌,
}
use app_suscriptions_back.Errors.{ok}
use app_suscriptions_back.Domain.{Subscription, is_nonempty}
use app_suscriptions_back.Normalization.{Python}
use app_suscriptions_back.Normalization.Scalars.{SubscriptionOut}
use app_suscriptions_back.Normalization.Parts.{to_out}
use app_suscriptions_back.Routing.Text.{Unicode, route_iccid}
use app_suscriptions_back.Routing.Table.{Route, Table, HasKey, find_routing, find_routing-eq-owner}
use app_suscriptions_back.Routing.Resolve.Discover.{
  IsOwned, IsOwned-upsert, IsOwned-self, HasKey-upsert,
}
use app_suscriptions_back.Listing.{store_routes, first_fault}

module _ (python : Python) (now : ℕ) (name : String) (company : ℕ) where
  abbrev u : Unicode
  u = python.unicode

  -- the company's row for the key of a SIM that is shown
  abbrev pub IsStored : Table → SubscriptionOut → Type 0
  IsStored table out = IsOwned (route_iccid u out.subscription.iccid) company table

  store_routes-keeps :
      (subs : List Subscription) (table : Table) (key : String)
      → IsOwned key company table
      → IsOwned key company (store_routes u now name company subs table)
  unfolding store_routes
  store_routes-keeps [] table key h = h
  store_routes-keeps (sub ∷ subs) table key h =
      store_routes-keeps subs _ key (IsOwned-upsert u now company sub.iccid name key table h)

  pub store_routes-stays :
      (subs : List Subscription) (table : Table) (items : List SubscriptionOut)
      → All (IsStored table) items
      → All (IsStored (store_routes u now name company subs table)) items
  store_routes-stays subs table [] h = tt
  store_routes-stays subs table (item ∷ items) (h, hs) =
      (store_routes-keeps subs table _ h, store_routes-stays subs table items hs)

  pub store_routes-stores :
      (subs : List Subscription) (table : Table)
      → All (IsStored (store_routes u now name company subs table)) (map (to_out python) subs)
  unfolding store_routes to_out
  store_routes-stores [] table = tt
  store_routes-stores (sub ∷ subs) table = (
    store_routes-keeps subs _ _ (IsOwned-self u now company sub.iccid name table),
    store_routes-stores subs _,
  )

  pub store_routes-HasKey :
      (subs : List Subscription) (table : Table)
      → HasKey table
      → HasKey (store_routes u now name company subs table)
  unfolding store_routes
  store_routes-HasKey [] table h = h
  store_routes-HasKey (sub ∷ subs) table h =
      store_routes-HasKey subs _ (HasKey-upsert u now company sub.iccid name table h)

  -- storing a page and showing it
  pub store_routes-append :
      (subs : List Subscription) (table : Table) (items : List SubscriptionOut)
      → All (IsStored table) items
      → All
          (IsStored (store_routes u now name company subs table))
          (items ++ map (to_out python) subs)
  store_routes-append subs table items h =
      All-append _ items _ (store_routes-stays subs table items h) (store_routes-stores subs table)

-- the lookup of `_find_routing` finds the SIM for the company
abbrev pub IsFound : Unicode → ℕ → Table → SubscriptionOut → Type 0
IsFound u company table out =
    (r : Route) × (find_routing u out.subscription.iccid company table ≡ ok (some r))
    × (r.company_id ≡ company)

stored-IsFound :
    (python : Python) (company : ℕ) (table : Table) (items : List SubscriptionOut)
    → HasKey table
    → All (IsStored python 0 "" company table) items
    → All (IsFound python.unicode company table) items
stored-IsFound python company table [] key h = tt
stored-IsFound python company table (item ∷ items) key ((r, found, own), hs) = (
  (
    r,
    ground (
      arith,
      find_routing-eq-owner python.unicode item.subscription.iccid company table key,
      found,
      own,
    ),
    own,
  ),
  stored-IsFound python company table items key hs,
)

-- a listing commits what it stored when it shows a SIM
pub committed-IsFound :
    (python : Python) (company : ℕ) (before after : Table) (items : List SubscriptionOut)
    → HasKey after
    → All (IsStored python 0 "" company after) items
    → All (IsFound python.unicode company (if is_nonempty items then after else before)) items
committed-IsFound python company before after [] key h = tt
committed-IsFound python company before after (item ∷ items) key h =
    stored-IsFound python company after (item ∷ items) key h

pub is_nonempty-map {ℓ κ} :
    {A : Type ℓ} {B : Type κ} (f : A → B) (xs : List A) → is_nonempty (map f xs) ≡ is_nonempty xs
is_nonempty-map f [] = refl
is_nonempty-map f (x ∷ xs) = refl

-- a loop in which nothing raises
pub first_fault-none :
    (fault : Subscription → Option String)
    → ((sub : Subscription) → fault sub ≡ none)
    → (subs : List Subscription) → first_fault fault subs ≡ none
unfolding first_fault
first_fault-none fault fine [] = refl
first_fault-none fault fine (sub ∷ subs) =
    rw (first_fault, fine sub) (first_fault-none fault fine subs)
