-- ===== src/Routing/Resolve.antt =====
-- `_discover_iccid_across_providers` and `_resolve_routing_or_discover` of routing.py. The registry
-- and the credentials of the company are parameters: a call of either gives a value or raises.
use Prim.Native.String
use app_suscriptions_back.Prelude.{
  ℕ, String, Bool, true, false, not, ◌&&◌, Option, none, some, List, [], ◌∷◌, str_eq, if◌then◌else◌,
}
use app_suscriptions_back.Errors.{Result, ok, err, ◌>>=◌, raise, cancelled, subscription_not_found}
use app_suscriptions_back.Domain.{
  Subscription, SearchFilters, Provider, value, providers, Page, Adapter, is_set,
}
use app_suscriptions_back.Routing.Text.{Unicode, route_iccid}
use app_suscriptions_back.Routing.Table.{
  Route, Table, PrefixRoute, upsert_routing, find_routing, find_prefix_routing,
}
use app_suscriptions_back.Routing.NegativeCache.{Cache, hit, record_miss, forget}
pub mod Discover
pub mod Outcome

-- `_unresolved_iccid_error`
unfoldable pub unresolved {ℓ} : {A : Type ℓ} → String → Result A
unresolved iccid = raise subscription_not_found (
    String.◌++◌ "SIM " (
      String.◌++◌ iccid
        " not found in any registered provider that supports ICCID lookup. Verify the ICCID is correct. If the SIM lives on a provider whose listing API cannot filter by ICCID (e.g. Moabits without a populated company code), bootstrap the routing index via POST /v1/sims/import or a provider-scoped listing."))

-- the error for a route that was discovered and is not there
unfoldable pub not_persisted {ℓ} : {A : Type ℓ} → String → Subscription → Result A
not_persisted iccid found = raise subscription_not_found (
    String.◌++◌ "SIM " (
      String.◌++◌ iccid (
        String.◌++◌ " was discovered on provider '" (
          String.◌++◌ found.provider
            "' but the routing entry could not be persisted. Retry the request."))))

-- A provider that discovery calls: its name, its adapter and the credentials.
abbrev pub Call : Type 0 → Type 0
Call Creds = String × Adapter Creds × Creds

-- The answers of a request's dependencies, and its clocks: `db_now` is the database's, `checked_at`
-- and `recorded_at` are readings of the monotonic clock.
pub record Request (Creds : Type 0) : Type 0 where
  pub registry : String → Result (Adapter Creds)
  pub load_credentials : String → Result Creds
  pub db_now : ℕ
  pub checked_at : ℕ
  pub recorded_at : ℕ

module _ {Creds : Type 0} (q : Request Creds) where
  -- The body of the `try` for one provider. An exception skips the provider, a cancellation is none.
  unfoldable pub setup : String → Result (Option (Call Creds))
  setup name = elim (q.registry name) [
    | err cancelled ↦ err cancelled
    | err e ↦ ok none
    | ok adapter ↦
        if not adapter.searchable
        then ok none
        else if not (adapter.supports_list_filter "iccid")
        then ok none
        else elim (q.load_credentials name) [
          | err cancelled ↦ err cancelled
          | err e ↦ ok none
          | ok creds ↦ ok (some (name, adapter, creds))
        ]
  ]

  unfoldable pub provider_calls : List Provider → Result (List (Call Creds))
  provider_calls [] = ok []
  provider_calls (p ∷ ps) =
      let rest = provider_calls ps in
      elim (setup (value p)) [
        | err e ↦ err e
        | ok none ↦ rest
        | ok (some call) ↦ rest >>= λ calls. ok (call ∷ calls)
      ]

-- `adapter.list_subscriptions(creds, cursor=None, limit=1, filters=…)`
unfoldable pub answer : {Creds : Type 0} → String → Call Creds → Result Page
answer iccid (name, adapter, creds) =
    adapter.list_subscriptions creds none 1
      (record (adapter.bootstrap_filters) { iccid = some iccid })

module _ (u : Unicode) (db_now : ℕ) (company : ℕ) (iccid : String) where
  -- The loop over the SIMs of one provider, from the table and the match so far.
  unfoldable pub absorb_subs :
      String → List Subscription → Table × Option Subscription → Table × Option Subscription
  absorb_subs name [] s = s
  absorb_subs name (sub ∷ subs) (table, matched) = absorb_subs name subs (
    upsert_routing u db_now sub.iccid name company table,
    (if not (is_set matched) && str_eq sub.iccid iccid then some sub else matched),
  )

  -- The loop over the providers' answers. An answer that is an exception is a miss.
  unfoldable pub absorb_answers :
      List (String × Result Page) → Table × Option Subscription → Table × Option Subscription
  absorb_answers [] s = s
  absorb_answers ((name, err e) ∷ answers) s = absorb_answers answers s
  absorb_answers ((name, ok (subs, next)) ∷ answers) s =
      absorb_answers answers (absorb_subs name subs s)

unfoldable pub answers : {Creds : Type 0} → String → List (Call Creds) → List (String × Result Page)
answers iccid [] = []
answers iccid (call ∷ calls) = (call.0, answer iccid call) ∷ answers iccid calls

module _ {Creds : Type 0} (u : Unicode) (q : Request Creds) where
  -- `_discover_iccid_across_providers`. No provider to call leaves the table alone, and so does a
  -- cancellation, with nothing committed.
  unfoldable pub discover : String → ℕ → Table → Result (Table × Option Subscription)
  discover iccid company table = provider_calls q providers >>= λ calls.
      ok (absorb_answers u q.db_now company iccid (answers iccid calls) (table, none))

  -- The end of the resolution, after a discovery that gave `found`.
  unfoldable pub conclude :
      String
      → ℕ
      → Option Subscription
      → Table
      → Cache
      → Result (Route × Option Subscription) × Table × Cache
  conclude iccid company none table cache = (
    unresolved (route_iccid u iccid),
    table,
    record_miss q.recorded_at (company, route_iccid u iccid) cache,
  )
  conclude iccid company (some found) table cache = (
    elim (find_routing u (route_iccid u iccid) company table) [
      | err e ↦ err e
      | ok none ↦ not_persisted iccid found
      | ok (some r) ↦ ok (r, some found)
    ],
    table,
    forget (company, route_iccid u iccid) cache,
  )

  -- What follows when neither table has a route.
  unfoldable pub discover_or_miss :
      String → ℕ → Table → Cache → Result (Route × Option Subscription) × Table × Cache
  discover_or_miss iccid company table cache =
      let (known, cache') = hit q.checked_at (company, route_iccid u iccid) cache in
      if known
      then (unresolved (route_iccid u iccid), table, cache')
      else elim (discover (route_iccid u iccid) company table) [
        | err e ↦ (err e, table, cache')
        | ok (table', found) ↦ conclude iccid company found table' cache'
      ]

  -- `_resolve_routing_or_discover`, with the routing table and the negative cache as they are left.
  unfoldable pub resolve_routing_or_discover :
      List PrefixRoute
      → String
      → ℕ
      → Table
      → Cache
      → Result (Route × Option Subscription) × Table × Cache
  resolve_routing_or_discover prefixes iccid company table cache =
      elim (find_routing u (route_iccid u iccid) company table) [
        | err e ↦ (err e, table, cache)
        | ok (some r) ↦ (ok (r, none), table, cache)
        | ok none ↦ elim (find_prefix_routing u (route_iccid u iccid) company prefixes) [
          | err e ↦ (err e, table, cache)
          | ok (some r) ↦ (ok (r, none), table, cache)
          | ok none ↦ discover_or_miss iccid company table cache
        ]
      ]
