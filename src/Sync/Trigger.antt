-- ===== src/Sync/Trigger.antt =====
-- What `trigger_sync` of app/sync/router.py promises.
use app_suscriptions_back.Prelude.{
  ℕ, ◌≡◌, refl, Bool, true, false, ◌&&◌, String, Option, some, List, [], ◌∷◌, ◌++◌, filter,
  filter-append, any, arith, ◌⊎◌, ==_iff, str_eq_refl, inl, inr, Option-cases, All,
}
use app_suscriptions_back.Errors.{Result, ok, err}
use app_suscriptions_back.Database.{update_where}
use app_suscriptions_back.Identity.{Profile, admin, require_roles}
use app_suscriptions_back.Sync.{
  Job, blocks, is_stale, fail_job, new_job, insert_job, open_job, enqueue, has_id, trigger_for,
  trigger_sync, after_commit, queue_unavailable,
}
use app_suscriptions_back.Sync.InFlight.{
  AtMostOne, AtMostOne-update, AtMostOne-enqueue, AtMostOne-insert, blocks-new_job, blocks-fail_job,
}

-- the table after the stale jobs that block are failed
abbrev pub healed : String → ℕ → ℕ → List Job → List Job
healed provider now company jobs =
    update_where (λ j. blocks company provider j && is_stale now j) (fail_job now) jobs

insert_job_ok :
    (j : Job) (jobs jobs' : List Job) → insert_job j jobs ≡ ok jobs' → jobs' ≡ jobs ++ j ∷ []
unfolding insert_job
insert_job_ok j jobs jobs' h = ground arith

-- inversion of a first transaction that commits
pub record IsOpened (provider : String) (now : ℕ) (job_id : String) (company : ℕ) (user : Option ℕ)
    (jobs jobs' : List Job) : Type 0 where
  pub free : filter (blocks company provider) (healed provider now company jobs) ≡ []
  pub added :
      jobs' ≡ healed provider now company jobs ++ new_job job_id provider company user now ∷ []

open_job_inv :
    (provider : String) (now : ℕ) (job_id : String) (company : ℕ) (user : Option ℕ)
    (jobs jobs' : List Job)
    → open_job provider now job_id company user jobs ≡ ok jobs'
    → IsOpened provider now job_id company user jobs jobs'
unfolding open_job
open_job_inv provider now job_id company user jobs jobs' h = record {
  free = ground arith;
  added = ground arith;
}

IsOpened-AtMostOne :
    {provider : String} {now : ℕ} {job_id : String} {company : ℕ} {user : Option ℕ}
    {jobs jobs' : List Job}
    → IsOpened provider now job_id company user jobs jobs'
    → AtMostOne jobs
    → AtMostOne jobs'
IsOpened-AtMostOne {provider} {now} {job_id} {company} {user} {jobs} o h = rw o.added (
    AtMostOne-insert job_id provider company user now (healed provider now company jobs)
      (AtMostOne-update _ now jobs h) o.free)

trigger_for-AtMostOne :
    (provider : String) (now : ℕ) (job_id : String) (enqueued : Bool) (current : Profile)
    (jobs : List Job)
    → AtMostOne jobs
    → AtMostOne (trigger_for provider now job_id enqueued current jobs).1
unfolding trigger_for
trigger_for-AtMostOne provider now job_id enqueued current jobs h =
    elim (Option-cases current.company_id) [
      | inl none_set ↦ rw (none_set, trigger_for) h
      | inr (company, e) ↦
          rw (e, trigger_for)
            (go company (open_job provider now job_id company (some current.id) jobs) refl)
    ]
  where
    go :
        (company : ℕ) (r : Result (List Job))
        → open_job provider now job_id company (some current.id) jobs ≡ r
        → AtMostOne (after_commit now job_id enqueued r jobs).1
    go company (err x) e = h
    go company (ok jobs') e = AtMostOne-enqueue now job_id enqueued jobs' (
        IsOpened-AtMostOne (open_job_inv provider now job_id company (some current.id) jobs jobs' e)
          h)

-- Whatever the caller, the queue and the outcome, a trigger that runs alone keeps at most one job
-- in flight for each company and provider.
pub trigger_sync-AtMostOne :
    (provider : String) (now : ℕ) (job_id : String) (has_pool enqueued : Bool) (current : Profile)
    (jobs : List Job)
    → AtMostOne jobs
    → AtMostOne (trigger_sync provider now job_id has_pool enqueued current jobs).1
unfolding trigger_sync
trigger_sync-AtMostOne provider now job_id has_pool enqueued current jobs h =
    ground (arith, trigger_for-AtMostOne provider now job_id enqueued current jobs h)

-- How a trigger ends, for the company and provider that it is about: `job` is the new job, and
-- `enqueued` the answer of the queue.
abbrev pub Ended : Bool → ℕ → String → List Job → Job → Result String × List Job → Type 0
Ended enqueued company provider before job (ok id, after) =
    (enqueued ≡ true) × (id ≡ job.id) × (filter (blocks company provider) after ≡ job ∷ [])
Ended enqueued company provider before job (err e, after) =
    (after ≡ before)
    ⊎ ((enqueued ≡ false)
        × (err e ≡ queue_unavailable)
        × (filter (blocks company provider) after ≡ []))

module _ (provider : String) (now : ℕ) (job_id : String) (company : ℕ) (user : Option ℕ) where
  filter_new :
      (jobs : List Job)
      → filter (blocks company provider) jobs ≡ []
      → filter (blocks company provider) (jobs ++ new_job job_id provider company user now ∷ [])
        ≡ new_job job_id provider company user now ∷ []
  filter_new jobs free = ground (
    arith,
    filter-append (blocks company provider) jobs (new_job job_id provider company user now ∷ []),
    blocks-new_job job_id provider company user now company provider,
    ==_iff company company,
    str_eq_refl provider,
  )

  filter_new_failed :
      (jobs : List Job)
      → filter (blocks company provider) jobs ≡ []
      → filter (blocks company provider) (
          update_where
            (has_id job_id)
            (fail_job now)
            (jobs ++ new_job job_id provider company user now ∷ []))
        ≡ []
  unfolding update_where
  filter_new_failed [] free = ground (
    arith,
    str_eq_refl job_id,
    blocks-fail_job now company provider (new_job job_id provider company user now),
  )
  filter_new_failed (j ∷ jobs) free =
      ground (arith, blocks-fail_job now company provider j, filter_new_failed jobs)

  after_commit_ends :
      (enqueued : Bool) (jobs : List Job) (r : Result (List Job))
      → open_job provider now job_id company user jobs ≡ r
      → Ended enqueued company provider jobs
          (new_job job_id provider company user now)
          (after_commit now job_id enqueued r jobs)
  unfolding enqueue
  after_commit_ends enqueued jobs (err x) e = inl refl
  after_commit_ends true jobs (ok jobs') e =
      let o = open_job_inv provider now job_id company user jobs jobs' e in
      (refl, refl, rw o.added (filter_new (healed provider now company jobs) o.free))
  after_commit_ends false jobs (ok jobs') e =
      let o = open_job_inv provider now job_id company user jobs jobs' e in
      inr (refl, refl, rw o.added (filter_new_failed (healed provider now company jobs) o.free))

-- A trigger of a profile with a company ends in one of three ways: it raises and leaves the table
-- alone; or the queue did not take the job, it raises the error of an unavailable queue, and no job
-- is in flight for this company and provider; or the queue took the job, it returns the id of the
-- new pending job, and that is the only one in flight.
pub trigger_sync_ends :
    (provider : String) (now : ℕ) (job_id : String) (has_pool enqueued : Bool) (current : Profile)
    (company : ℕ) (jobs : List Job)
    → current.company_id ≡ some company
    → Ended enqueued company provider jobs
        (new_job job_id provider company (some current.id) now)
        (trigger_sync provider now job_id has_pool enqueued current jobs)
unfolding trigger_sync trigger_for
trigger_sync_ends provider now job_id has_pool enqueued current company jobs own = ground (
  arith,
  after_commit_ends provider now job_id company (some current.id) enqueued jobs
      (open_job provider now job_id company (some current.id) jobs) refl,
)

module _ (provider : String) (now company : ℕ) where
  -- every job in the way is stale
  abbrev pub AllStale : List Job → Type 0
  AllStale jobs = All (λ j. blocks company provider j ≡ true → is_stale now j ≡ true) jobs

  healed_free :
      (jobs : List Job)
      → AllStale jobs
      → filter (blocks company provider) (healed provider now company jobs) ≡ []
  unfolding update_where
  healed_free [] h = refl
  healed_free (j ∷ jobs) (h, hs) =
      ground (arith, h, blocks-fail_job now company provider j, healed_free jobs hs)

  any-healed :
      (job_id : String) (jobs : List Job)
      → any (has_id job_id) (healed provider now company jobs) ≡ any (has_id job_id) jobs
  unfolding update_where fail_job
  any-healed job_id [] = refl
  any-healed job_id (j ∷ jobs) = ground (arith, any-healed job_id jobs)

  open_job_heals :
      (job_id : String) (user : Option ℕ) (jobs : List Job)
      → AllStale jobs
      → any (has_id job_id) jobs ≡ false
      → open_job provider now job_id company user jobs
        ≡ ok (healed provider now company jobs ++ new_job job_id provider company user now ∷ [])
  unfolding open_job
  open_job_heals job_id user jobs stale fresh =
      ground (arith, healed_free jobs stale, any-healed job_id jobs)

-- An admin's trigger goes through when every job that blocks it is stale, the id is new and the
-- queue takes the job: a dead worker does not stop the syncs of a company.
pub trigger_sync_heals :
    (provider : String) (now : ℕ) (job_id : String) (current : Profile) (company : ℕ)
    (jobs : List Job)
    → current.role ≡ admin
    → current.company_id ≡ some company
    → AllStale provider now company jobs
    → any (has_id job_id) jobs ≡ false
    → (trigger_sync provider now job_id true true current jobs).0 ≡ ok job_id
unfolding trigger_sync trigger_for require_roles
trigger_sync_heals provider now job_id current company jobs is_admin own stale fresh =
    ground (arith, open_job_heals provider now company job_id (some current.id) jobs stale fresh)
