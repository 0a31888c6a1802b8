-- ===== src/Sync/Crawl.antt =====
-- `routing_sync_for_provider` of app/sync/tasks.py: one job, from its start to its end, with the
-- routing table that it fills. The provider's answer to a page request is a function of the cursor;
-- the worker lives for `fuel` requests, and is `interrupted` if it is killed before the last page.
pub mod Done
pub mod Lookup
use Prim.Native.String
use app_suscriptions_back.Prelude.{
  ℕ, zero, suc, ◌+◌, ◌-◌, ◌*◌, ◌/◌, String, Bool, true, false, not, Option, none, some, List, [],
  ◌∷◌, ◌++◌, length, filter, any, str_eq, if◌then◌else◌,
}
use app_suscriptions_back.Errors.{Exception, Result, ok, err, other, cancelled}
use app_suscriptions_back.Routing.Table.{Route, Table, upsert}
use app_suscriptions_back.Sync.{Job, running, done, failed}

-- What the crawl reads of a page: the ICCIDs and the next cursor.
abbrev pub Answer : Type 0
Answer = Result (List String × Option String)

pub record World : Type 0 where
  pub job : Job
  pub table : Table

pub data Outcome : Type 0 where
  finished : ℕ → Outcome
  raised : Exception → Outcome
  interrupted : Outcome

-- The text that `_persist_job_failure` keeps of an exception is left as the exception.
unfoldable pub persist_failure : ℕ → Exception → World → World
persist_failure now e w = record w {
  job = record (w.job) { status = failed; finished_at = some now; errors = w.job.errors ++ e ∷ [] };
}

-- `except Exception as exc`, which stores the failure and raises it again; a cancellation is not
-- caught, and leaves the job as it is.
abbrev pub job_after : ℕ → Exception → World → Job
job_after now cancelled w = w.job
job_after now e w = (persist_failure now e w).job

abbrev pub fail_task : ℕ → Exception → World → Outcome × World
fail_task now e w = (raised e, record w { job = job_after now e w })

-- The upsert of a batch of rows. PostgreSQL refuses a batch that would touch a row twice.
unfoldable pub upsert_batch : ℕ → String → ℕ → List String → Table → Result Table
upsert_batch now provider company [] table = ok table
upsert_batch now provider company (iccid ∷ rows) table =
    if any (str_eq iccid) rows
    then err (other "CardinalityViolation")
    else upsert_batch now provider company rows (
        upsert
          (record { iccid = iccid; provider = provider; company_id = company; last_seen_at = now })
          table)

-- `if s.iccid`
abbrev pub rows_of : List String → List String
rows_of iccids = filter (λ s. not (str_eq s "")) iccids

-- A page's batch: the upsert, the progress and the cursor of the next page, in one transaction. A
-- page without rows writes nothing.
unfoldable pub absorb :
    ℕ → String → ℕ → ℕ → List String → Option String → World → Result (ℕ × World)
absorb now provider company total iccids next w = elim (rows_of iccids) [
  | [] ↦ ok (total, w)
  | ◌∷◌ r rows ↦ elim (upsert_batch now provider company (r ∷ rows) w.table) [
    | err e ↦ err e
    | ok table' ↦
        let total' = total + length (r ∷ rows) in
        ok (
          total',
          record { job = record (w.job) { progress_done = total'; cursor = next }; table = table' },
        )
  ]
]

unfoldable pub finish : ℕ → ℕ → World → World
finish now total w = record w {
  job = record (w.job) {
    status = done;
    finished_at = some now;
    progress_done = total;
    cursor = none;
  };
}

-- The loop over the pages, from a cursor and the rows counted so far.
unfoldable pub crawl :
    ℕ → String → ℕ → (Option String → Answer) → ℕ → Option String → ℕ → World → Outcome × World
crawl now provider company fetch zero c total w = (interrupted, w)
crawl now provider company fetch (suc fuel) c total w = elim (fetch c) [
  | err e ↦ fail_task now e w
  | ok (iccids, next) ↦ elim (absorb now provider company total iccids next w) [
    | err e ↦ fail_task now e w
    | ok (total', w') ↦ elim next [
      | none ↦ (finished total', finish now total' w')
      | some d ↦ crawl now provider company fetch fuel (some d) total' w'
    ]
  ]
]

abbrev pub whole_seconds : ℕ → ℕ
whole_seconds t = t / 1_000_000 * 1_000_000

-- The cursor that a fresh Tele2 job starts from: the last 365 days. `format` is the rendering of an
-- instant by `strftime("%Y-%m-%dT%H:%M:%SZ")`.
unfoldable pub first_cursor : (ℕ → String) → ℕ → String → Option String → Option String
first_cursor format now provider (some c) = some c
first_cursor format now provider none =
    if str_eq provider "tele2"
    then some (
        String.◌++◌ "page:1|since:" (
          String.◌++◌ (format (whole_seconds now - 365 * 86400 * 1_000_000))
            (String.◌++◌ "|till:" (format (whole_seconds now)))))
    else none

-- The whole task. `adapter` is the lookup of an adapter that lists subscriptions, and `setup` the
-- loading of the credentials: an error of the first leaves the job as it is, one of the second is
-- stored unless it is a cancellation, and takes back the mark that the job is running.
unfoldable pub routing_sync_for_provider :
    (ℕ → String)
    → ℕ
    → String
    → ℕ
    → Result (Unit {0})
    → Result (Unit {0})
    → (Option String → Answer)
    → ℕ
    → World
    → Outcome × World
routing_sync_for_provider format now provider company (err e) setup fetch fuel w = (raised e, w)
routing_sync_for_provider format now provider company (ok _) (err e) fetch fuel w =
    fail_task now e w
routing_sync_for_provider format now provider company (ok _) (ok _) fetch fuel w =
    crawl now provider company fetch fuel (first_cursor format now provider w.job.cursor) 0
      (record w { job = record (w.job) { status = running; started_at = some now } })
