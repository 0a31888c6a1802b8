-- ===== src/Lifecycle.antt =====
-- The write endpoints of app/subscriptions/routers/sims.py, `set_status` and `purge_sim`, with the
-- idempotency keys and the audit of app/subscriptions/services/idempotency.py. The two endpoints
-- differ in the adapter's call and in what they audit. Times are whole microseconds.
use Prim.Native.String
use app_suscriptions_back.Prelude.{
  ℕ, ◌+◌, ◌*◌, String, Bool, true, false, ◌&&◌, not, Option, none, some, List, [], ◌∷◌, ◌++◌, any,
  filter, ◌==◌, str_eq, if◌then◌else◌,
}
use app_suscriptions_back.Errors.{
  Exception, domain, cancelled, Result, ok, err, raise, ExtraValue, string, number, get_extra,
  subscription_not_found, idempotency_key_required,
}
use app_suscriptions_back.Database.{update_where}
use app_suscriptions_back.Identity.{Profile, admin, require_roles, get_current_company_id}
use app_suscriptions_back.Routing.Text.{Unicode}
use app_suscriptions_back.Routing.Table.{Route, Table, find_routing}
pub mod Keys
pub mod Change
pub mod Retry
pub mod Once
mod Tests

-- The JSON of `response`: `{"status": "processing"}` or `{"status": 204}`.
pub data Response : Type 0 where
  processing processed : Response

pub record IdempotencyKey : Type 0 where
  pub key : String
  pub company_id : ℕ
  pub response : Response
  pub expires_at : ℕ

unfoldable pub has_key : String → ℕ → IdempotencyKey → Bool
has_key key company row = str_eq row.key key && (row.company_id == company)

-- `_claim_idempotency_key`: the insertion does nothing on a conflict of company and key.
unfoldable pub claim : ℕ → String → ℕ → List IdempotencyKey → Bool × List IdempotencyKey
claim now key company keys = if any (has_key key company) keys then (false, keys) else (
  true,
  keys
      ++ record {
        key = key;
        company_id = company;
        response = processing;
        expires_at = now + 24 * 3600 * 1_000_000;
      }
        ∷ [],
)

-- `_mark_idempotency_processed`
unfoldable pub mark_processed : String → ℕ → List IdempotencyKey → List IdempotencyKey
mark_processed key company =
    update_where (has_key key company) (λ row. record row { response = processed })

abbrev pub is_processing : Response → Bool
is_processing processing = true
is_processing processed = false

-- `_release_idempotency_key`
unfoldable pub release : String → ℕ → List IdempotencyKey → List IdempotencyKey
release key company = filter (λ row. not (has_key key company row && is_processing row.response))

pub data AuditOutcome : Type 0 where
  success error replayed : AuditOutcome

-- A row of `lifecycle_change_audit`
pub record Audit : Type 0 where
  pub company_id : ℕ
  pub actor_id : ℕ
  pub request_id : Option String
  pub iccid : String
  pub provider : String
  pub action : String
  pub target : Option String
  pub idempotency_key : String
  pub accepted_at : Option ℕ
  pub outcome : AuditOutcome
  pub latency_ms : ℕ
  pub provider_request_id : Option ExtraValue
  pub provider_error_code : Option ExtraValue
  pub error_text : Option String

-- `StatusChangeIn`
pub record StatusChange : Type 0 where
  pub target : String
  pub data_service : Option Bool
  pub sms_service : Option Bool

pub data Write : Type 0 where
  set_status : StatusChange → Write
  purge_sim : Write

abbrev pub action_of : Write → String
action_of (set_status body) = "set_status"
action_of purge_sim = "purge"

abbrev pub target_of : Write → Option String
target_of (set_status body) = some body.target
target_of purge_sim = none

-- The calls of an adapter that write, by ICCID, credentials and idempotency key.
pub record WriteAdapter (Creds : Type 0) : Type 0 where
  pub set_administrative_status : String → Creds → StatusChange → String → Result (Unit {0})
  pub purge_call : String → Creds → String → Result (Unit {0})

abbrev pub send :
    {Creds : Type 0} → WriteAdapter Creds → Write → String → Creds → String → Result (Unit {0})
send adapter (set_status body) iccid creds key =
    adapter.set_administrative_status iccid creds body key
send adapter purge_sim iccid creds key = adapter.purge_call iccid creds key

-- A call that was sent to a provider, and how it ended. The code keeps no such list.
pub record Sent : Type 0 where
  pub company_id : ℕ
  pub key : String
  pub result : Result (Unit {0})

pub record World : Type 0 where
  pub keys : List IdempotencyKey
  pub audit : List Audit
  pub sent : List Sent

-- A write of a company, past the guards. `text_of` is `str` of an exception, `audited_at` the time of
-- the audit, and `latency_ms` the measured duration of the call.
pub record WriteRequest (Creds : Type 0) : Type 0 where
  pub write : Write
  pub iccid : String
  pub key : String
  pub company_id : ℕ
  pub actor_id : ℕ
  pub request_id : Option String
  pub now : ℕ
  pub audited_at : ℕ
  pub latency_ms : ℕ
  pub text_of : Exception → String
  pub registry : String → Result (WriteAdapter Creds)
  pub load_credentials : String → Result Creds
