-- ===== src/Lifecycle/Change.antt =====
-- The bodies of `set_status` and `purge_sim` of sims.py: the claim of the key, the call of the adapter,
-- the audit and the end of the key.
use Prim.Native.String
use app_suscriptions_back.Prelude.{
  ℕ, String, Option, none, some, [], ◌∷◌, ◌++◌, ◌==◌, str_eq, if◌then◌else◌,
}
use app_suscriptions_back.Errors.{
  Exception, domain, cancelled, Result, ok, err, raise, ExtraValue, string, number, get_extra,
  subscription_not_found, idempotency_key_required,
}
use app_suscriptions_back.Identity.{Profile, admin, require_roles, get_current_company_id}
use app_suscriptions_back.Routing.Text.{Unicode}
use app_suscriptions_back.Routing.Table.{Route, Table, find_routing}
use app_suscriptions_back.Lifecycle.{
  claim, mark_processed, release, AuditOutcome, success, error, replayed, Audit, action_of,
  target_of, WriteAdapter, send, World, WriteRequest,
}

-- `a or b` of two values of a dict
abbrev pub or_else : Option ExtraValue → Option ExtraValue → Option ExtraValue
or_else none b = b
or_else (some (string s)) b = if str_eq s "" then b else some (string s)
or_else (some (number n)) b = if n == 0 then b else some (number n)

-- `_provider_error_fields`
unfoldable pub provider_error_fields : Exception → Option ExtraValue × Option ExtraValue
provider_error_fields (domain e) = (
  or_else (get_extra "provider_request_id" e.extra) (get_extra "transaction_id" e.extra),
  or_else (get_extra "provider_error_code" e.extra) (get_extra "exception_id" e.extra),
)
provider_error_fields _ = (none, none)

module _ {Creds : Type 0} (q : WriteRequest Creds) where
  -- the row that `_write_lifecycle_audit` writes for a call with this outcome
  abbrev pub audit_row : Route → AuditOutcome → Audit
  audit_row r outcome = record {
    company_id = q.company_id;
    actor_id = q.actor_id;
    request_id = q.request_id;
    iccid = r.iccid;
    provider = r.provider;
    action = action_of q.write;
    target = target_of q.write;
    idempotency_key = q.key;
    accepted_at = elim outcome [ success ↦ some q.audited_at | _ ↦ none ];
    outcome = outcome;
    latency_ms = elim outcome [ replayed ↦ 0 | _ ↦ q.latency_ms ];
    provider_request_id = none;
    provider_error_code = none;
    error_text = none;
  }

  abbrev pub error_row : Route → Exception → Audit
  error_row r e =
      let (request_id, error_code) = provider_error_fields e in
      record (audit_row r error) {
        provider_request_id = request_id;
        provider_error_code = error_code;
        error_text = some (q.text_of e);
      }

  -- What follows the adapter's call. A cancellation passes by `except Exception`, and `finally` then
  -- audits the outcome that was set before the call.
  unfoldable pub conclude_call : Route → Result (Unit {0}) → World → Result (Unit {0}) × World
  conclude_call r (ok _) w = (
    ok tt,
    record w {
      keys = mark_processed q.key q.company_id w.keys;
      audit = w.audit ++ audit_row r success ∷ [];
    },
  )
  conclude_call r (err cancelled) w =
      (err cancelled, record w { audit = w.audit ++ audit_row r success ∷ [] })
  conclude_call r (err e) w = (
    err e,
    record w { keys = release q.key q.company_id w.keys; audit = w.audit ++ error_row r e ∷ [] },
  )

  -- The call of the adapter, logged in `sent`.
  unfoldable pub perform : Route → WriteAdapter Creds → Creds → World → Result (Unit {0}) × World
  perform r adapter creds w =
      let result = send adapter q.write r.iccid creds q.key in
      conclude_call r result (record w {
        sent = w.sent ++ record { company_id = q.company_id; key = q.key; result = result } ∷ [];
      })

  -- What follows a claim that succeeded.
  unfoldable pub claimed_change : Route → World → Result (Unit {0}) × World
  claimed_change r w = elim (q.load_credentials r.provider) [
    | err e ↦ (err e, w)
    | ok creds ↦ elim (q.registry r.provider) [
      | err e ↦ (err e, w)
      | ok adapter ↦ perform r adapter creds w
    ]
  ]

  -- The body of both endpoints, from the route on.
  unfoldable pub routed_change : Route → World → Result (Unit {0}) × World
  routed_change r w =
      let (claimed, keys') = claim q.now q.key q.company_id w.keys in
      if claimed
      then claimed_change r (record w { keys = keys' })
      else (ok tt, record w { keys = keys'; audit = w.audit ++ audit_row r replayed ∷ [] })

-- `_resolve_routing` of sims.py
unfoldable pub resolve_routing : Unicode → String → ℕ → Table → Result Route
resolve_routing u iccid company table = elim (find_routing u iccid company table) [
  | err e ↦ err e
  | ok none ↦ raise subscription_not_found (
      String.◌++◌ "SIM " (
        String.◌++◌ iccid
          " not found. Populate the routing index first via GET /v1/sims?provider=<name> (lazy discovery) or POST /v1/sims/import (bulk import)."))
  | ok (some r) ↦ ok r
]

-- The body of both endpoints.
unfoldable pub change :
    {Creds : Type 0} → Unicode → WriteRequest Creds → Table → World → Result (Unit {0}) × World
change u q table w = elim (resolve_routing u q.iccid q.company_id table) [
  | err e ↦ (err e, w)
  | ok r ↦ routed_change q r w
]

-- `_require_idempotency_key`
unfoldable pub require_idempotency_key : Option String → Result String
require_idempotency_key none =
    err (domain (record { kind = idempotency_key_required; detail = none; extra = [] }))
require_idempotency_key (some key) = ok key

-- `PUT /{iccid}/status` and `POST /{iccid}/purge`, with the dependencies in the order of the
-- signature. The request's company, actor and key are those of the guards.
unfoldable pub write_sim :
    {Creds : Type 0}
    → Unicode
    → Option String
    → Profile
    → WriteRequest Creds
    → Table
    → World
    → Result (Unit {0}) × World
write_sim u header current q table w = elim (require_idempotency_key header) [
  | err e ↦ (err e, w)
  | ok key ↦ elim (require_roles (admin ∷ []) current) [
    | err e ↦ (err e, w)
    | ok profile ↦ elim (get_current_company_id profile) [
      | err e ↦ (err e, w)
      | ok company ↦
          change u (record q { key = key; company_id = company; actor_id = profile.id }) table w
    ]
  ]
]
