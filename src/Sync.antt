-- ===== src/Sync.antt =====
-- app/sync: background jobs that crawl a provider's SIMs into the routing index.
-- Times are whole microseconds.
use Prim.Native.String
use app_suscriptions_back.Prelude.{
  ℕ, ◌+◌, ◌*◌, suc, String, Bool, true, false, ◌&&◌, ◌||◌, Option, none, some, List, [], ◌∷◌, ◌++◌,
  ltb, ◌==◌, any, not, filter, str_eq, if◌then◌else◌,
}
use app_suscriptions_back.Errors.{
  Exception, Result, ok, err, raise, http, other, sync_already_running, job_not_found, ◌>>=◌,
}
use app_suscriptions_back.Database.{scalar_one_or_none, update_where, is_some_str}
use app_suscriptions_back.Identity.{Profile, admin, role_eq, require_roles}
pub mod InFlight
pub mod Trigger
pub mod Race
pub mod Nightly
pub mod Jobs
pub mod Crawl
mod Tests

pub data JobKind : Type 0 where
  routing_sync export : JobKind

pub data JobStatus : Type 0 where
  pending running done failed : JobStatus

-- A row of `sync_jobs`; the result columns of exports, which no code writes, are left out.
pub record Job : Type 0 where
  pub id : String
  pub kind : JobKind
  pub provider : Option String
  pub company_id : ℕ
  pub triggered_by : Option ℕ
  pub status : JobStatus
  pub created_at : ℕ
  pub started_at : Option ℕ
  pub finished_at : Option ℕ
  pub progress_done : ℕ
  pub cursor : Option String
  pub errors : List Exception

-- `_STALE_JOB_CUTOFF`: two hours
abbrev pub stale_cutoff : ℕ
stale_cutoff = 2 * 3600 * 1_000_000

abbrev pub in_flight : JobStatus → Bool
in_flight pending = true
in_flight running = true
in_flight _ = false

abbrev pub is_routing_sync : JobKind → Bool
is_routing_sync routing_sync = true
is_routing_sync export = false

-- The jobs that stand in the way of another for this company and provider.
unfoldable pub blocks : ℕ → String → Job → Bool
blocks company provider j =
    (j.company_id == company)
    && is_routing_sync j.kind
    && is_some_str j.provider provider
    && in_flight j.status

-- `created_at < now - _STALE_JOB_CUTOFF`
unfoldable pub is_stale : ℕ → Job → Bool
is_stale now j = ltb (j.created_at + stale_cutoff) now

-- `.values(status=STATUS_FAILED, finished_at=func.now())`
unfoldable pub fail_job : ℕ → Job → Job
fail_job now j = record j { status = failed; finished_at = some now }

abbrev pub new_job : String → String → ℕ → Option ℕ → ℕ → Job
new_job job_id provider company user now = record {
  id = job_id;
  kind = routing_sync;
  provider = some provider;
  company_id = company;
  triggered_by = user;
  status = pending;
  created_at = now;
  started_at = none;
  finished_at = none;
  progress_done = 0;
  cursor = none;
  errors = [];
}

abbrev pub has_id : String → Job → Bool
has_id job_id j = str_eq j.id job_id

-- `db.add(job)` and the commit: the id is the primary key.
unfoldable pub insert_job : Job → List Job → Result (List Job)
insert_job j jobs =
    if any (has_id j.id) jobs then err (other "IntegrityError") else ok (jobs ++ j ∷ [])

abbrev pub already_in_progress : String → String
already_in_progress provider =
    String.◌++◌ "A sync for " (String.◌++◌ provider " is already in progress")

-- What `trigger_sync` does in its first transaction: it fails the stale jobs that block, looks for
-- another one, and adds the new job. The result is the table that is committed.
unfoldable pub open_job : String → ℕ → String → ℕ → Option ℕ → List Job → Result (List Job)
unfolding scalar_one_or_none update_where blocks is_stale fail_job insert_job
open_job provider now job_id company user jobs =
    let healed =
      update_where (λ j. blocks company provider j && is_stale now j) (fail_job now) jobs in
    scalar_one_or_none (filter (blocks company provider) healed) >>= λ existing. elim existing [
      | some _ ↦ raise sync_already_running (already_in_progress provider)
      | none ↦ insert_job (new_job job_id provider company user now) healed
    ]

-- Enqueuing the job at the queue, after the commit; a job that cannot be enqueued is failed. The
-- queue answers `enqueued` for this job id.
unfoldable pub enqueue : ℕ → String → Bool → List Job → List Job
unfolding update_where fail_job
enqueue now job_id enqueued jobs =
    if enqueued then jobs else update_where (has_id job_id) (fail_job now) jobs

abbrev pub queue_unavailable : Result String
queue_unavailable = err (http 503 "Failed to enqueue sync job; the async queue is unavailable")

-- The rest of `trigger_sync`, once the new job is committed in `jobs`.
abbrev pub after_commit :
    ℕ → String → Bool → Result (List Job) → List Job → Result String × List Job
after_commit now job_id enqueued (err e) before = (err e, before)
after_commit now job_id enqueued (ok jobs) before =
    (if enqueued then ok job_id else queue_unavailable, enqueue now job_id enqueued jobs)

-- `trigger_sync`, past the role check and the queue. A company that is None is compared as IS NULL,
-- which no row meets, and its insertion fails on the column.
unfoldable pub trigger_for :
    String → ℕ → String → Bool → Profile → List Job → Result String × List Job
trigger_for provider now job_id enqueued current jobs = elim current.company_id [
  | none ↦ (err (other "IntegrityError"), jobs)
  | some company ↦
      after_commit now job_id enqueued (open_job provider now job_id company (some current.id) jobs)
        jobs
]

-- `POST /sync/trigger`, with the pool of `get_arq_pool` or none. The new id is `job_id`, and the
-- result is the id and the table.
unfoldable pub trigger_sync :
    String → ℕ → String → Bool → Bool → Profile → List Job → Result String × List Job
unfolding trigger_for require_roles
trigger_sync provider now job_id has_pool enqueued current jobs =
    elim (require_roles (admin ∷ []) current) [
      | err e ↦ (err e, jobs)
      | ok profile ↦
          if has_pool
          then trigger_for provider now job_id enqueued profile jobs
          else (err (http 503 "Async queue unavailable"), jobs)
    ]

-- The counters that the nightly task reports.
pub record Scheduled : Type 0 where
  pub created : ℕ
  pub skipped : ℕ
  pub queued : ℕ

-- One round of the loop of `schedule_nightly_routing_sync`. `token k` is the id that the k-th new
-- job gets, and `enqueued` the answer of the queue for an id.
unfoldable pub schedule_row :
    ℕ
    → (ℕ → String)
    → (String → Bool)
    → ℕ
    → String
    → Scheduled
    → List Job
    → Result Scheduled × List Job
schedule_row now token enqueued company provider s jobs =
    elim (scalar_one_or_none (filter (blocks company provider) jobs)) [
      | err e ↦ (err e, jobs)
      | ok (some _) ↦ (ok (record s { skipped = s.skipped + 1 }), jobs)
      | ok none ↦ elim (insert_job (new_job (token s.created) provider company none now) jobs) [
        | err e ↦ (err e, jobs)
        | ok jobs' ↦ (
          ok (record s {
            created = s.created + 1;
            queued = if enqueued (token s.created) then s.queued + 1 else s.queued;
          }),
          enqueue now (token s.created) (enqueued (token s.created)) jobs',
        )
      ]
    ]

-- The loop. A commit that raises ends the task, and leaves what was committed before.
unfoldable pub schedule_rows :
    ℕ
    → (ℕ → String)
    → (String → Bool)
    → List (ℕ × String)
    → Scheduled
    → List Job
    → Result Scheduled × List Job
schedule_rows now token enqueued [] s jobs = (ok s, jobs)
schedule_rows now token enqueued ((company, provider) ∷ rows) s jobs =
    let (r, jobs') = schedule_row now token enqueued company provider s jobs in
    elim r [ err e ↦ (err e, jobs') | ok s' ↦ schedule_rows now token enqueued rows s' jobs' ]

-- The rows of the active credentials, each pair once.
unfoldable pub distinct_rows : List (ℕ × String) → List (ℕ × String)
distinct_rows [] = []
distinct_rows ((c, p) ∷ rows) =
    (c, p) ∷ filter (λ r. not ((r.0 == c) && str_eq r.1 p)) (distinct_rows rows)

unfoldable pub is_abandoned : ℕ → Job → Bool
unfolding is_stale
is_abandoned now j = is_routing_sync j.kind && in_flight j.status && is_stale now j

-- `schedule_nightly_routing_sync`: `rows` are the company and the provider of the credentials that
-- are active.
unfoldable pub schedule_nightly :
    ℕ → (ℕ → String) → (String → Bool) → List (ℕ × String) → List Job → Result Scheduled × List Job
schedule_nightly now token enqueued rows jobs =
    schedule_rows now token enqueued (distinct_rows rows)
      (record { created = 0; skipped = 0; queued = 0 })
      (update_where (is_abandoned now) (fail_job now) jobs)

-- The detail quotes the id by `repr`, written here for an id without quotes and escapes.
abbrev pub not_found : String → Result Job
not_found job_id = raise job_not_found (String.◌++◌ "Job '" (String.◌++◌ job_id "' not found"))

abbrev pub is_own : Profile → Job → Bool
is_own current j = elim current.company_id [ none ↦ false | some c ↦ j.company_id == c ]

-- `GET /jobs/{job_id}`; the response shows the fields of the row.
unfoldable pub get_job : String → Profile → List Job → Result Job
unfolding scalar_one_or_none
get_job job_id current jobs = scalar_one_or_none (filter (has_id job_id) jobs) >>= λ found.
    elim found [
      | none ↦ not_found job_id
      | some j ↦
          if not (role_eq current.role admin) && not (is_own current j)
          then not_found job_id
          else ok j
    ]
