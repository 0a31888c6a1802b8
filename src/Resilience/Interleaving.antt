-- ===== src/Resilience/Interleaving.antt =====
-- Calls that overlap: the guard of one call, and the recording of another, in any order. Each step
-- holds the lock of resilience.py, so a history is a list of steps.
use app_suscriptions_back.Prelude.{
  ℕ, suc, ◌+◌, ◌-◌, ◌≤◌, ◌<◌, ◌≡◌, refl, List, [], ◌∷◌, ◌++◌, length, All, All-append, arith,
}
use app_suscriptions_back.Errors.{ok, err}
use app_suscriptions_back.Resilience.{
  open_, half_open, Breaker, admit, record_success, record_failure, unavailable, ceil_s,
}
use app_suscriptions_back.Resilience.Window.{
  IsAscending, IsAscending-concat, drop_expired-All, drop_expired-IsAscending,
}

pub data Step : Type 0 where
  enter : Step
  succeed : Step
  fail : Step

-- A step at a time of the clock.
pub step : Step → ℕ → Breaker → Breaker
step enter now b = (admit now b).1
step succeed now b = record_success b
step fail now b = record_failure now b

pub run : List (ℕ × Step) → Breaker → Breaker
run [] b = b
run ((now, s) ∷ rest) b = run rest (step s now b)

-- The clock of a history starts at `now` and never goes back.
abbrev pub IsTimed : ℕ → List (ℕ × Step) → Type 0
IsTimed now [] = Unit
IsTimed now ((t, s) ∷ rest) = (now ≤ t) × IsTimed t rest

-- The invariant at time `now`: the deque is in the order of time, holds nothing later than `now`
-- and is shorter than the threshold, and the breaker was not opened later than `now`.
pub record IsValid (now : ℕ) (b : Breaker) : Type 0 where
  pub ascending : IsAscending b.failures
  pub past : All (λ t. t ≤ now) b.failures
  pub short : length b.failures < b.threshold
  pub opened : b.opened_at ≤ now

All-later :
    {now later : ℕ} (ts : List ℕ) → now ≤ later → All (λ t. t ≤ now) ts → All (λ t. t ≤ later) ts
All-later [] h k = tt
All-later (t ∷ ts) h (k, ks) = (omega arith, All-later ts h ks)

record_failure-IsValid :
    {now : ℕ} (b : Breaker) (t : ℕ)
    → now ≤ t
    → IsValid now b
    → All (λ u. u ≤ t) b.failures
    → IsValid t (record_failure t b)
unfolding record_failure
record_failure-IsValid b t h v past =
    let in_order =
      drop_expired-IsAscending b.window t (b.failures ++ t ∷ [])
        (IsAscending-concat b.failures t v.ascending past) in
    let old =
      drop_expired-All (λ u. u ≤ t) b.window t (b.failures ++ t ∷ [])
        (All-append (λ u. u ≤ t) b.failures (t ∷ []) past (omega arith, tt)) in
    record {
      ascending = ground arith;
      past = ground arith;
      short = ground arith;
      opened = ground arith;
    }

step-IsValid :
    {now : ℕ} {b : Breaker} (s : Step) (t : ℕ) → now ≤ t → IsValid now b → IsValid t (step s t b)
unfolding step admit record_success
step-IsValid {b = b} enter t h v = record {
  ascending = ground arith;
  past = ground (arith, All-later b.failures h v.past);
  short = ground arith;
  opened = ground arith;
}
step-IsValid {b = b} succeed t h v = record {
  ascending = ground arith;
  past = ground (arith, All-later b.failures h v.past);
  short = ground arith;
  opened = ground arith;
}
step-IsValid {b = b} fail t h v = record_failure-IsValid b t h v (All-later b.failures h v.past)

-- the time of the last step
abbrev pub end_time : ℕ → List (ℕ × Step) → ℕ
end_time now [] = now
end_time now ((t, s) ∷ rest) = end_time t rest

-- Whatever calls overlap, in whatever order they end, the breaker keeps its invariant: at the time
-- of the last step its deque is in the order of time, holds nothing later, and is shorter than the
-- threshold, and the breaker was not opened later. The clock never goes back.
pub run-IsValid :
    (now : ℕ) (b : Breaker) (history : List (ℕ × Step))
    → IsTimed now history
    → IsValid now b
    → IsValid (end_time now history) (run history b)
unfolding run
run-IsValid now b [] timed v = v
run-IsValid now b ((t, s) ∷ rest) (h, timed) v =
    run-IsValid t (step s t b) rest timed (step-IsValid s t h v)

-- all steps of a history are earlier than `deadline`
abbrev pub IsBefore : ℕ → List (ℕ × Step) → Type 0
IsBefore deadline [] = Unit
IsBefore deadline ((t, s) ∷ rest) = (t < deadline) × IsBefore deadline rest

step_open :
    (s : Step) (t : ℕ) (b : Breaker)
    → b.state ≡ open_
    → b.opened_at ≤ t
    → t < b.open_duration + b.opened_at
    → ((step s t b).state ≡ open_)
      × (b.opened_at ≤ (step s t b).opened_at)
      × ((step s t b).opened_at ≤ t)
      × ((step s t b).open_duration ≡ b.open_duration)
unfolding step admit record_success record_failure
step_open enter t b o h k = ground arith
step_open succeed t b o h k = ground arith
step_open fail t b o h k = ground arith

-- Every call of a history that enters is refused, with the error of an open breaker.
abbrev pub AllRefused : List (ℕ × Step) → Breaker → Type 0
AllRefused [] b = Unit
AllRefused ((t, enter) ∷ rest) b =
    ((retry : ℕ) × ((admit t b).0 ≡ err (unavailable b.name retry)))
    × AllRefused rest (step enter t b)
AllRefused ((t, s) ∷ rest) b = AllRefused rest (step s t b)

refused_open :
    (t : ℕ) (b : Breaker)
    → b.state ≡ open_
    → t < b.open_duration + b.opened_at
    → (retry : ℕ) × ((admit t b).0 ≡ err (unavailable b.name retry))
unfolding admit
refused_open t b o k = (ceil_s (b.open_duration + b.opened_at - t), ground arith)

-- From an opening until `open_duration` has passed every call is refused with the error of an open
-- breaker, and the breaker stays open, whatever the calls that were admitted before it report
-- meanwhile.
pub stays_open :
    (b : Breaker) (now deadline : ℕ) (history : List (ℕ × Step))
    → b.state ≡ open_
    → b.opened_at ≤ now
    → deadline ≤ b.open_duration + b.opened_at
    → IsTimed now history
    → IsBefore deadline history
    → AllRefused history b × ((run history b).state ≡ open_)
unfolding run
stays_open b now deadline [] o h d timed before = (tt, o)
stays_open b now deadline ((t, enter) ∷ rest) o h d (later, timed) (early, before) =
    let (o', grown, h', same) = step_open enter t b o (omega arith) (omega arith) in
    let (refused, o'') =
      stays_open (step enter t b) t deadline rest o' h' (omega arith) timed before in
    ((refused_open t b o (omega arith), refused), o'')
stays_open b now deadline ((t, succeed) ∷ rest) o h d (later, timed) (early, before) =
    let (o', grown, h', same) = step_open succeed t b o (omega arith) (omega arith) in
    stays_open (step succeed t b) t deadline rest o' h' (omega arith) timed before
stays_open b now deadline ((t, fail) ∷ rest) o h d (later, timed) (early, before) =
    let (o', grown, h', same) = step_open fail t b o (omega arith) (omega arith) in
    stays_open (step fail t b) t deadline rest o' h' (omega arith) timed before

-- how many of the calls that start at these times are let through, before any of them ends
pub count_admitted : List ℕ → Breaker → ℕ
count_admitted [] b = 0
count_admitted (t ∷ ts) b =
    let rest = count_admitted ts (admit t b).1 in
    elim (admit t b).0 [ ok _ ↦ suc rest | err _ ↦ rest ]

count_admitted_half_open :
    (ts : List ℕ) (b : Breaker) → b.state ≡ half_open → count_admitted ts b ≡ length ts
unfolding count_admitted admit
count_admitted_half_open [] b o = refl
count_admitted_half_open (t ∷ ts) b o = ground (arith, count_admitted_half_open ts b)

-- When an open breaker turns half-open, it lets through every call that starts before the first of
-- them ends, and not one probe call only.
pub half_open_admits_all :
    (b : Breaker) (start : ℕ) (ts : List ℕ)
    → b.state ≡ open_
    → b.open_duration + b.opened_at ≤ start
    → count_admitted (start ∷ ts) b ≡ length (start ∷ ts)
unfolding count_admitted admit
half_open_admits_all b start ts o h =
    ground (arith, count_admitted_half_open ts (record b { state = half_open }))
