-- ===== src/Listing.antt =====
-- app/subscriptions/services/listing.py: listings and searches over one or several providers. What
-- its functions share.
use app_suscriptions_back.Prelude.{
  ℕ, suc, ◌+◌, String, Bool, true, false, Option, none, some, List, [], ◌∷◌, ◌++◌, map, min, max,
}
use app_suscriptions_back.Errors.{Result, ok, err, Exception, cancelled}
use app_suscriptions_back.Domain.{Subscription, SearchFilters, Page, Adapter}
use app_suscriptions_back.Dict.{Dict, get, put}
use app_suscriptions_back.Cursors.{Codec, CursorMap}
use app_suscriptions_back.Normalization.{Python}
use app_suscriptions_back.Normalization.Scalars.{SubscriptionOut}
use app_suscriptions_back.Normalization.Parts.{to_out}
use app_suscriptions_back.Dispatch.{
  Failure, ProviderStatus, provider_failure, plain_status, not_queried, answered,
}
use app_suscriptions_back.Routing.Text.{Unicode}
use app_suscriptions_back.Routing.Table.{Table, upsert_routing}
pub mod WhenOk
pub mod Collect
pub mod Routed
pub mod Global
pub mod Provider
pub mod Iccid
pub mod SearchCalls
pub mod Search
pub mod Credentials
pub mod Admin
pub mod AdminSearch
pub mod AdminOnce
pub mod Fixtures
mod Tests
mod SearchTests

-- `SimListOut`
pub record SimListOut : Type 0 where
  pub items : List SubscriptionOut
  pub next_cursor : Option String
  pub total : Option ℕ
  pub is_partial : Bool
  pub failed_providers : List Failure
  pub provider_statuses : List ProviderStatus

-- What a listing gets from the rest of the program during one request: the registry, the
-- credentials of a company at a provider, `get_subscription` of a provider's adapter, the database's
-- clock, and what the database raises for the upsert of a SIM's route, where it does.
pub record Services (Creds : Type 0) : Type 0 where
  pub python : Python
  pub codec : Codec
  pub registry : String → Result (Adapter Creds)
  pub load_credentials : ℕ → String → Result Creds
  pub get_subscription : String → String → Creds → Result Subscription
  pub db_now : ℕ
  pub upsert_fault : Subscription → Option String

-- `try: … except Exception as exc: …`, which lets CancelledError pass
abbrev pub attempt {ℓ κ} :
    {A : Type ℓ} {B : Type κ} → Result A → (Exception → Result B) → (A → Result B) → Result B
attempt (ok a) handle after = after a
attempt (err cancelled) handle after = err cancelled
attempt (err e) handle after = handle e

-- A call of `list_subscriptions` that is prepared: its provider and its arguments.
pub record Query (Creds : Type 0) : Type 0 where
  pub name : String
  pub adapter : Adapter Creds
  pub creds : Creds
  pub cursor : Option String
  pub limit : ℕ
  pub filters : SearchFilters

-- The call, whose exception is a value (`asyncio.gather(…, return_exceptions=True)`).
abbrev pub response : {Creds : Type 0} → Query Creds → Result Page
response call = call.adapter.list_subscriptions call.creds call.cursor call.limit call.filters

-- What is known of the providers while a listing runs: what it answers of those that failed, of all
-- of them, and the cursors of the next page.
pub record Report : Type 0 where
  pub failures : Dict Failure
  pub statuses : Dict ProviderStatus
  pub cursors : CursorMap

abbrev pub no_report : Report
no_report = record { failures = []; statuses = []; cursors = [] }

-- `provider_statuses_by_name[name] = status`
abbrev pub set_status : ProviderStatus → Report → Report
set_status status report = record report { statuses = put status.provider status report.statuses }

-- a provider that failed: `failed_providers_by_name` and `provider_statuses_by_name`
unfoldable pub set_failure : String → Exception → Report → Report
unfolding put provider_failure
set_failure name e report = record report {
  failures = put name (provider_failure name e).0 report.failures;
  statuses = put name (provider_failure name e).1 report.statuses;
}

abbrev pub set_cursor : String → Option String → Report → Report
set_cursor name cursor report = record report { cursors = put name cursor report.cursors }

-- `[d[name] for name in names if name in d]`
unfoldable pub in_order {ℓ} : {V : Type ℓ} → List String → Dict V → List V
unfolding get
in_order [] d = []
in_order (name ∷ names) d = elim (get name d) [
  | none ↦ in_order names d
  | some v ↦ v ∷ in_order names d
]

-- the provider does not list: its status
abbrev pub no_native_listing : String → ProviderStatus
no_native_listing name = record {
  provider = name;
  status = not_queried;
  count = 0;
  code = none;
  title = some "Provider does not expose native listing";
}

-- `min(max(limit, 1), 500)`
abbrev pub page_size : ℕ → ℕ
page_size limit = min (max limit 1) 500

-- the first exception of a loop over SIMs
unfoldable pub first_fault : (Subscription → Option String) → List Subscription → Option String
first_fault fault [] = none
first_fault fault (sub ∷ subs) =
    let later = first_fault fault subs in elim (fault sub) [ none ↦ later | some text ↦ some text ]

-- `for sub in subs: await _upsert_routing(…)`, where no upsert raises
unfoldable pub store_routes : Unicode → ℕ → String → ℕ → List Subscription → Table → Table
unfolding upsert_routing
store_routes u now name company [] table = table
store_routes u now name company (sub ∷ subs) table =
    store_routes u now name company subs (upsert_routing u now sub.iccid name company table)
