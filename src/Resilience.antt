-- ===== src/Resilience.antt =====
-- app/shared/resilience.py: the circuit breaker of each provider adapter.
-- Times are whole nanoseconds of the monotonic clock.
pub mod Window
pub mod Trip
pub mod Interleaving
mod Tests
use Prim.Native.String
use app_suscriptions_back.Prelude.{
  ℕ, suc, ◌+◌, ◌-◌, ◌/◌, String, Bool, true, false, ◌||◌, Option, none, some, List, [], ◌∷◌, ◌++◌,
  ltb, leb, length, if◌then◌else◌,
}
use app_suscriptions_back.Errors.{
  Kind, subscription_not_found, invalid_iccid, provider_unavailable, provider_resource_not_found,
  provider_validation_error, provider_forbidden, unsupported_operation, DomainError, Exception,
  domain, cancelled, Result, ok, err, number,
}

abbrev pub ticks_per_s : ℕ
ticks_per_s = 1_000_000_000

-- `_NON_TRIPPING_ERRORS`
abbrev pub is_non_tripping_kind : Kind → Bool
is_non_tripping_kind provider_resource_not_found = true
is_non_tripping_kind provider_validation_error = true
is_non_tripping_kind provider_forbidden = true
is_non_tripping_kind unsupported_operation = true
is_non_tripping_kind subscription_not_found = true
is_non_tripping_kind invalid_iccid = true
is_non_tripping_kind _ = false

abbrev pub is_non_tripping : Exception → Bool
is_non_tripping (domain e) = is_non_tripping_kind e.kind
is_non_tripping _ = false

pub data State : Type 0 where
  closed open_ half_open : State

-- `failures` is the deque, oldest first.
pub record Breaker : Type 0 where
  pub name : String
  pub threshold : ℕ
  pub window : ℕ
  pub open_duration : ℕ
  pub state : State
  pub failures : List ℕ
  pub failure_count : ℕ
  pub success_count : ℕ
  pub opened_at : ℕ

unfoldable pub init : String → ℕ → ℕ → ℕ → Breaker
init name threshold window open_duration = record {
  name = name;
  threshold = threshold;
  window = window;
  open_duration = open_duration;
  state = closed;
  failures = [];
  failure_count = 0;
  success_count = 0;
  opened_at = 0;
}

-- `math.ceil` of a positive duration, in seconds
abbrev pub ceil_s : ℕ → ℕ
ceil_s t = (t + (ticks_per_s - 1)) / ticks_per_s

abbrev pub unavailable : String → ℕ → Exception
unavailable name retry_after = domain (record {
  kind = provider_unavailable;
  detail = some (String.◌++◌ "circuit breaker is OPEN for provider '" (String.◌++◌ name "'"));
  extra = ("retry_after", number retry_after) ∷ [];
})

-- The guard at the head of `call`. `remaining_open_s <= 0` is a comparison of sums, so that no
-- difference falls below zero.
unfoldable pub admit : ℕ → Breaker → Result (Unit {0}) × Breaker
admit now b = elim b.state [
  | open_ ↦
      if leb (b.open_duration + b.opened_at) now
      then (ok tt, record b { state = half_open })
      else (err (unavailable b.name (ceil_s (b.open_duration + b.opened_at - now))), b)
  | _ ↦ (ok tt, b)
]

unfoldable pub record_success : Breaker → Breaker
record_success b = elim b.state [
  | half_open ↦ record b { state = closed; failures = []; success_count = b.success_count + 1 }
  | _ ↦ record b { success_count = b.success_count + 1 }
]

-- `while failures and failures[0] < now - window: failures.popleft()`
unfoldable pub drop_expired : ℕ → ℕ → List ℕ → List ℕ
drop_expired window now [] = []
drop_expired window now (t ∷ ts) =
    if ltb (t + window) now then drop_expired window now ts else t ∷ ts

abbrev pub is_half_open : State → Bool
is_half_open half_open = true
is_half_open _ = false

unfoldable pub record_failure : ℕ → Breaker → Breaker
record_failure now b =
    let recent = drop_expired b.window now (b.failures ++ now ∷ []) in
    if is_half_open b.state || leb b.threshold (length recent)
    then record b {
      state = open_;
      failures = [];
      failure_count = b.failure_count + 1;
      opened_at = now;
    }
    else record b { failures = recent; failure_count = b.failure_count + 1 }

-- What follows `await fn(…)`. A cancellation is no `Exception` and is recorded nowhere.
unfoldable pub settle {ℓ} : {A : Type ℓ} → ℕ → Result A → Breaker → Result A × Breaker
settle now (ok a) b = (ok a, record_success b)
settle now (err cancelled) b = (err cancelled, b)
settle now (err e) b = (err e, if is_non_tripping e then record_success b else record_failure now b)

-- `call`, where nothing else runs between the guard and the recording: the guard at time `start`,
-- and the outcome `r` of `fn` at time `finish`.
unfoldable pub call {ℓ} : {A : Type ℓ} → ℕ → ℕ → Result A → Breaker → Result A × Breaker
unfolding admit settle
call start finish r b =
    let (admitted, b') = admit start b in
    elim admitted [ ok _ ↦ settle finish r b' | err e ↦ (err e, b') ]
