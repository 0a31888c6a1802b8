-- ===== src/Resilience/Tests.antt =====
-- The circuit breaker on concrete calls.
use app_suscriptions_back.Prelude.{
  ℕ, ◌≡◌, refl, List, [], ◌∷◌, arith, ◌≤◌, ◌<◌, ◌+◌, ◌*◌, ◌-◌, none, All,
}
use app_suscriptions_back.Errors.{
  ok, err, DomainError, provider_resource_not_found, subscription_not_found,
  provider_validation_error, invalid_iccid, provider_forbidden, unsupported_operation,
  provider_unavailable, provider_rate_limited, provider_auth_failed, provider_protocol_error,
}
use app_suscriptions_back.Resilience.{
  closed, open_, Breaker, ticks_per_s, unavailable, drop_expired, record_failure, call,
}
use app_suscriptions_back.Resilience.Trip.{call_open, call_non_tripping, AsSuccess, AsFailure}
use app_suscriptions_back.Resilience.Interleaving.{
  Step, enter, succeed, fail, run, run-IsValid, IsValid, stays_open, AllRefused,
  half_open_admits_all, count_admitted,
}

-- Two failures within 30 ticks open this breaker for 30 ticks.
abbrev fresh : Breaker
fresh = record {
  name = "kite";
  threshold = 2;
  window = 30;
  open_duration = 30;
  state = closed;
  failures = [];
  failure_count = 0;
  success_count = 0;
  opened_at = 0;
}

abbrev opened : Breaker
opened = record fresh { state = open_; opened_at = 10; failure_count = 2 }

two_failures : record_failure 10 (record_failure 5 fresh) ≡ opened
unfolding record_failure drop_expired
two_failures = refl

late_failure : (record_failure 40 (record_failure 5 fresh)).failures ≡ 40 ∷ []
unfolding record_failure drop_expired
late_failure = refl

abbrev one_failure : Breaker
one_failure = record fresh { failures = 5 ∷ []; failure_count = 1 }

call_open_example :
    (retry : ℕ) × (call {A = ℕ} 20 21 (ok 7) opened ≡ (err (unavailable "kite" retry), opened))
    × (1 ≤ retry)
    × (40 ≤ 20 + retry * ticks_per_s)
    × (20 + (retry - 1) * ticks_per_s < 40)
call_open_example = call_open opened 20 21 (ok 7) refl (omega arith)

abbrev forbidden_error : DomainError
forbidden_error = record { kind = provider_forbidden; detail = none; extra = [] }

call_non_tripping_example :
    All (AsSuccess {A = ℕ} one_failure 50 51 forbidden_error 7) (
      provider_resource_not_found ∷ subscription_not_found ∷ provider_validation_error
      ∷ invalid_iccid ∷ provider_forbidden ∷ unsupported_operation ∷ [])
    × All (AsFailure {A = ℕ} one_failure 50 51 forbidden_error 7) (
        provider_unavailable ∷ provider_rate_limited ∷ provider_auth_failed
        ∷ provider_protocol_error ∷ [])
call_non_tripping_example = call_non_tripping one_failure 50 51 forbidden_error 7

abbrev overlapping : List (ℕ × Step)
overlapping = (11, enter) ∷ (12, fail) ∷ (13, succeed) ∷ (14, fail) ∷ []

run-IsValid_example : IsValid 14 (run overlapping opened)
run-IsValid_example = run-IsValid 10 opened overlapping (omega arith) (omega arith)

stays_open_example : AllRefused overlapping opened × ((run overlapping opened).state ≡ open_)
stays_open_example =
    stays_open opened 10 40 overlapping refl (omega arith) (omega arith) (omega arith) (omega arith)

half_open_admits_all_example : count_admitted (40 ∷ 41 ∷ 41 ∷ []) opened ≡ 3
half_open_admits_all_example = half_open_admits_all opened 40 (41 ∷ 41 ∷ []) refl (omega arith)
