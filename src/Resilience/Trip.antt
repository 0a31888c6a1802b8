-- ===== src/Resilience/Trip.antt =====
-- When the breaker of resilience.py opens, what it does while open, and how it closes again.
use mathlib.Core.List.{append-nil, append_assoc}
use native.Mathlib.Nat.{add-zero}
use app_suscriptions_back.Prelude.{
  ℕ, ◌+◌, ◌-◌, ◌*◌, ◌≤◌, ◌<◌, ◌≡◌, refl, ◌≢◌, ◌↔◌, ◌⊎◌, true, false, List, [], ◌∷◌, ◌++◌, length,
  length-append, filter, All, All-append, arith,
}
use app_suscriptions_back.Errors.{
  Exception, domain, cancelled, Result, ok, err, ◌>>=◌, Kind, DomainError,
  provider_resource_not_found, subscription_not_found, provider_validation_error, invalid_iccid,
  provider_forbidden, unsupported_operation, provider_unavailable, provider_rate_limited,
  provider_auth_failed, provider_protocol_error,
}
use app_suscriptions_back.Resilience.{
  closed, open_, half_open, Breaker, ticks_per_s, ceil_s, is_non_tripping, is_non_tripping_kind,
  unavailable, admit, record_success, record_failure, call,
}
use app_suscriptions_back.Resilience.Window.{
  IsAscending, IsAscending-concat, is_recent, drop_expired-eq-filter, drop_expired_recent,
}

-- The failures that count at time `now`, when one more happens at `now`.
abbrev pub recent : ℕ → Breaker → List ℕ
recent now b = filter (is_recent b.window now) (b.failures ++ now ∷ [])

-- The state after a failure is open exactly when the breaker was half-open, or was open before, or
-- the failures within the window, this one included, reach the threshold. The deque is in the
-- order of time and holds nothing later than the failure.
pub opens_iff :
    (b : Breaker) (now : ℕ)
    → IsAscending b.failures
    → All (λ t. t ≤ now) b.failures
    → ((record_failure now b).state ≡ open_)
      ↔ ((b.state ≡ half_open) ⊎ (b.state ≡ open_) ⊎ (b.threshold ≤ length (recent now b)))
unfolding record_failure
opens_iff b now asc old = ground (
  arith,
  drop_expired-eq-filter b.window now (b.failures ++ now ∷ [])
      (IsAscending-concat b.failures now asc old),
)

-- Until `open_duration` has passed since the opening, a call raises ProviderUnavailable whatever
-- the provider would have answered, and the breaker stays as it was.
pub call_open :
    {A : Type 0} (b : Breaker) (start finish : ℕ) (r : Result A)
    → b.state ≡ open_
    → start < b.open_duration + b.opened_at
    → (retry : ℕ) × (call start finish r b ≡ (err (unavailable b.name retry), b))
      × (1 ≤ retry)
      × (b.open_duration + b.opened_at ≤ start + retry * ticks_per_s)
      × (start + (retry - 1) * ticks_per_s < b.open_duration + b.opened_at)
unfolding call
call_open b start finish r o h = (
  ceil_s (b.open_duration + b.opened_at - start),
  ground arith,
  omega arith,
  omega arith,
  omega arith,
)

-- Once `open_duration` has passed, the next call goes through, and an answer of the provider closes
-- the breaker with an empty deque.
pub call_probe_closes :
    {A : Type 0} (b : Breaker) (start finish : ℕ) (a : A)
    → b.state ≡ open_
    → b.open_duration + b.opened_at ≤ start
    → call start finish (ok a) b
      ≡ (ok a, record b { state = closed; failures = []; success_count = b.success_count + 1 })
unfolding call record_success
call_probe_closes b start finish a o h = ground arith

-- Once `open_duration` has passed, the next call goes through, and a failure that counts opens the
-- breaker again, from the time of that failure.
pub call_probe_reopens :
    {A : Type 0} (b : Breaker) (start finish : ℕ) (e : Exception)
    → b.state ≡ open_
    → b.open_duration + b.opened_at ≤ start
    → e ≢ cancelled
    → is_non_tripping e ≡ false
    → call {A = A} start finish (err e) b ≡ (
      err e,
      record b {
        state = open_;
        failures = [];
        failure_count = b.failure_count + 1;
        opened_at = finish;
      },
    )
unfolding call record_failure
call_probe_reopens b start finish cancelled o h ne t = absurd (ne refl)
call_probe_reopens b start finish e o h ne t = ground arith

-- What a call that ends with an error of this kind leaves: the error reaches the caller whenever the
-- call is admitted, and the breaker is as a success would leave it.
abbrev pub AsSuccess : {A : Type 0} → Breaker → ℕ → ℕ → DomainError → A → Kind → Type 0
AsSuccess {A} b start finish e a kind =
    ((call {A = A} start finish (err (domain (record e { kind = kind }))) b).1
      ≡ (call start finish (ok a) b).1)
    × ((call {A = A} start finish (err (domain (record e { kind = kind }))) b).0
        ≡ ((admit start b).0 >>= λ _. err (domain (record e { kind = kind }))))

-- The same, for an error of an unhealthy provider: an admitted call is recorded as a failure.
abbrev pub AsFailure : {A : Type 0} → Breaker → ℕ → ℕ → DomainError → A → Kind → Type 0
AsFailure {A} b start finish e a kind =
    call {A = A} start finish (err (domain (record e { kind = kind }))) b
    ≡ (elim (admit start b).0 [
      | ok _ ↦ (err (domain (record e { kind = kind })), record_failure finish (admit start b).1)
      | err refusal ↦ (err refusal, (admit start b).1)
    ])

AsSuccess-kind :
    {A : Type 0} (b : Breaker) (start finish : ℕ) (e : DomainError) (a : A) (kind : Kind)
    → is_non_tripping_kind kind ≡ true
    → AsSuccess b start finish e a kind
unfolding call
AsSuccess-kind b start finish e a kind h = ground arith

AsFailure-kind :
    {A : Type 0} (b : Breaker) (start finish : ℕ) (e : DomainError) (a : A) (kind : Kind)
    → is_non_tripping_kind kind ≡ false
    → AsFailure b start finish e a kind
unfolding call
AsFailure-kind b start finish e a kind h = ground arith

-- An error by which a healthy provider answers, that a resource or a SIM is not there, or that a
-- request or an ICCID is not valid, forbidden or not supported, reaches the caller whenever the call
-- is admitted, and leaves the breaker as a success would. The errors of an outage, that a provider is
-- unavailable, limits the rate, refuses the credentials or breaks its protocol, count as failures
-- of the calls that were admitted.
pub call_non_tripping :
    {A : Type 0} (b : Breaker) (start finish : ℕ) (e : DomainError) (a : A)
    → All (AsSuccess b start finish e a) (
        provider_resource_not_found ∷ subscription_not_found ∷ provider_validation_error
        ∷ invalid_iccid ∷ provider_forbidden ∷ unsupported_operation ∷ [])
      × All (AsFailure b start finish e a) (
          provider_unavailable ∷ provider_rate_limited ∷ provider_auth_failed
          ∷ provider_protocol_error ∷ [])
call_non_tripping b start finish e a = (
  (
    AsSuccess-kind b start finish e a provider_resource_not_found refl,
    (
      AsSuccess-kind b start finish e a subscription_not_found refl,
      (
        AsSuccess-kind b start finish e a provider_validation_error refl,
        (
          AsSuccess-kind b start finish e a invalid_iccid refl,
          (
            AsSuccess-kind b start finish e a provider_forbidden refl,
            (AsSuccess-kind b start finish e a unsupported_operation refl, tt),
          ),
        ),
      ),
    ),
  ),
  (
    AsFailure-kind b start finish e a provider_unavailable refl,
    (
      AsFailure-kind b start finish e a provider_rate_limited refl,
      (
        AsFailure-kind b start finish e a provider_auth_failed refl,
        (AsFailure-kind b start finish e a provider_protocol_error refl, tt),
      ),
    ),
  ),
)

-- Failures one after another, each recorded at its time.
pub fails : List ℕ → Breaker → Breaker
fails [] b = b
fails (t ∷ ts) b = fails ts (record_failure t b)

abbrev InWindow : ℕ → ℕ → ℕ → Type 0
InWindow window last t = (t ≤ last) × (last ≤ t + window)

-- nothing is dropped at a time up to `last`
still_recent :
    (window last now : ℕ) (ts : List ℕ)
    → now ≤ last
    → All (λ t. last ≤ t + window) ts
    → All (λ t. now ≤ t + window) ts
still_recent window last now [] h k = tt
still_recent window last now (t ∷ ts) h (k, ks) =
    (omega arith, still_recent window last now ts h ks)

still_in :
    (window last : ℕ) (ts : List ℕ)
    → All (InWindow window last) ts
    → All (λ t. last ≤ t + window) ts
still_in window last [] h = tt
still_in window last (t ∷ ts) (h, hs) = (h.1, still_in window last ts hs)

record_failure_below :
    (b : Breaker) (now : ℕ)
    → b.state ≡ closed
    → length b.failures + 1 < b.threshold
    → All (λ t. now ≤ t + b.window) b.failures
    → record_failure now b
      ≡ record b { failures = b.failures ++ now ∷ []; failure_count = b.failure_count + 1 }
unfolding record_failure
record_failure_below b now c h old = ground (
  arith,
  length-append b.failures (now ∷ []),
  drop_expired_recent b.window now (b.failures ++ now ∷ [])
      (All-append (λ t. now ≤ t + b.window) b.failures (now ∷ []) old (omega arith, tt)),
)

-- below the threshold the failures of a window only pile up
fails_below :
    (ts : List ℕ) (b : Breaker) (last : ℕ)
    → b.state ≡ closed
    → length b.failures + length ts < b.threshold
    → All (λ t. last ≤ t + b.window) b.failures
    → All (InWindow b.window last) ts
    → fails ts b
      ≡ record b { failures = b.failures ++ ts; failure_count = b.failure_count + length ts }
unfolding fails
fails_below [] b last c h old new = rw (append-nil, add-zero)
fails_below (t ∷ ts) b last c h old ((k, k'), new) =
    let b' : Breaker = record b {
      failures = b.failures ++ t ∷ [];
      failure_count = b.failure_count + 1;
    } in
    rw (record_failure_below b t c (omega arith) (still_recent b.window last t b.failures k old)) (
      ground (
        arith,
        fails_below ts b' last c (omega (arith, length-append b.failures (t ∷ [])))
            (All-append (λ u. last ≤ u + b.window) b.failures (t ∷ []) old (k', tt)) new,
        append_assoc b.failures (t ∷ []) ts,
      ))

-- From a closed breaker with an empty deque, `threshold` failures within one window open it, and
-- the last of them does: after all but the last it is still closed.
pub threshold_failures_open :
    (b : Breaker) (ts : List ℕ) (last : ℕ)
    → b.state ≡ closed
    → b.failures ≡ []
    → length ts + 1 ≡ b.threshold
    → All (InWindow b.window last) ts
    → ((fails ts b).state ≡ closed)
      × ((record_failure last (fails ts b)).state ≡ open_)
      × ((record_failure last (fails ts b)).opened_at ≡ last)
unfolding record_failure
threshold_failures_open b ts last c e n new =
    let piled = fails_below ts b last c (rw e (omega arith)) (rw e tt) new in
    rw piled (
      ground (
        arith,
        length-append b.failures (ts ++ last ∷ []),
        length-append ts (last ∷ []),
        append_assoc b.failures ts (last ∷ []),
        drop_expired_recent b.window last (ts ++ last ∷ []) (
            All-append (λ t. last ≤ t + b.window) ts (last ∷ []) (still_in b.window last ts new)
              (omega arith, tt)),
      ))
