-- ===== src/Sync/InFlight.antt =====
-- Jobs of app/sync that are in flight, counted for each company and provider. No index of the table
-- bounds their number.
use app_suscriptions_back.Prelude.{
  ℕ, ◌+◌, ◌≤◌, ◌≡◌, ap, Bool, true, false, ◌&&◌, String, Option, none, List, [], ◌∷◌, ◌++◌, length,
  filter, arith, ◌==◌, ==_iff, str_eq, str_eq_iff, filter-append, length-append, if◌then◌else◌,
}
use app_suscriptions_back.Errors.{ok}
use app_suscriptions_back.Database.{scalar_one_or_none, update_where}
use app_suscriptions_back.Sync.{Job, blocks, fail_job, new_job, enqueue, has_id}

abbrev pub count_blocking : ℕ → String → List Job → ℕ
count_blocking c p jobs = length (filter (blocks c p) jobs)

abbrev pub AtMostOne : List Job → Type 0
AtMostOne jobs = (c : ℕ) (p : String) → count_blocking c p jobs ≤ 1

pub blocks-fail_job : (now c : ℕ) (p : String) (j : Job) → blocks c p (fail_job now j) ≡ false
unfolding blocks fail_job
blocks-fail_job now c p j = ground arith

module _ (sel : Job → Bool) (now c : ℕ) (p : String) where
  -- failing jobs brings none into flight
  pub count_blocking-update :
      (jobs : List Job)
      → count_blocking c p (update_where sel (fail_job now) jobs) ≤ count_blocking c p jobs
  unfolding update_where
  count_blocking-update [] = omega arith
  count_blocking-update (j ∷ jobs) =
      ground (arith, count_blocking-update jobs, blocks-fail_job now c p j)

pub AtMostOne-update :
    (sel : Job → Bool) (now : ℕ) (jobs : List Job)
    → AtMostOne jobs
    → AtMostOne (update_where sel (fail_job now) jobs)
AtMostOne-update sel now jobs h c p = omega (arith, count_blocking-update sel now c p jobs, h c p)

pub AtMostOne-enqueue :
    (now : ℕ) (job_id : String) (enqueued : Bool) (jobs : List Job)
    → AtMostOne jobs
    → AtMostOne (enqueue now job_id enqueued jobs)
unfolding enqueue
AtMostOne-enqueue now job_id true jobs h = h
AtMostOne-enqueue now job_id false jobs h = AtMostOne-update (has_id job_id) now jobs h

abbrev pub same_key : ℕ → String → ℕ → String → Bool
same_key company provider c p = (company == c) && str_eq provider p

pub blocks-new_job :
    (job_id provider : String) (company : ℕ) (user : Option ℕ) (now c : ℕ) (p : String)
    → blocks c p (new_job job_id provider company user now) ≡ same_key company provider c p
unfolding blocks
blocks-new_job job_id provider company user now c p = ground arith

pub count_blocking-append :
    (job_id provider : String) (company : ℕ) (user : Option ℕ) (now c : ℕ) (p : String)
    (jobs : List Job)
    → count_blocking c p (jobs ++ new_job job_id provider company user now ∷ [])
      ≡ count_blocking c p jobs + (if same_key company provider c p then 1 else 0)
count_blocking-append job_id provider company user now c p jobs = ground (
  arith,
  filter-append (blocks c p) jobs (new_job job_id provider company user now ∷ []),
  blocks-new_job job_id provider company user now c p,
  length-append (filter (blocks c p) jobs) (new_job job_id provider company user now ∷ []),
  length-append (filter (blocks c p) jobs) [],
)

pub count_none :
    (jobs : List Job) (sel : Job → Bool)
    → scalar_one_or_none (filter sel jobs) ≡ ok none
    → filter sel jobs ≡ []
unfolding scalar_one_or_none
count_none jobs sel h = ground arith

-- a new job where none is in flight keeps the invariant
pub AtMostOne-insert :
    (job_id provider : String) (company : ℕ) (user : Option ℕ) (now : ℕ) (jobs : List Job)
    → AtMostOne jobs
    → filter (blocks company provider) jobs ≡ []
    → AtMostOne (jobs ++ new_job job_id provider company user now ∷ [])
AtMostOne-insert job_id provider company user now jobs h free c p = ground (
  arith,
  count_blocking-append job_id provider company user now c p jobs,
  h c p,
  ==_iff company c,
  str_eq_iff provider p,
  ap (length {A = Job}) free,
)
