-- ===== src/Sync/Nightly.antt =====
-- What `schedule_nightly_routing_sync` of app/sync/tasks.py promises.
use app_suscriptions_back.Prelude.{
  ℕ, ◌+◌, ◌≤◌, ◌≡◌, refl, sym, subst, Bool, true, String, none, some, List, [], ◌∷◌, ◌++◌, length,
  filter, arith, inl, inr, ◌⊎◌, ==_iff, str_eq_refl, All,
}
use app_suscriptions_back.Errors.{Result, ok, Result-cases}
use app_suscriptions_back.Database.{scalar_one_or_none}
use app_suscriptions_back.Sync.{
  Job, blocks, new_job, insert_job, enqueue, Scheduled, schedule_row, schedule_rows, distinct_rows,
  schedule_nightly, is_abandoned,
}
use app_suscriptions_back.Sync.InFlight.{
  AtMostOne, AtMostOne-update, AtMostOne-enqueue, AtMostOne-insert, count_none, count_blocking,
  count_blocking-append,
}

-- a job is in flight for the row
abbrev pub IsBusy : List Job → ℕ × String → Type 0
IsBusy jobs (c, p) = 1 ≤ count_blocking c p jobs

insert_job_ok :
    (j : Job) (jobs jobs' : List Job) → insert_job j jobs ≡ ok jobs' → jobs' ≡ jobs ++ j ∷ []
unfolding insert_job
insert_job_ok j jobs jobs' h = ground arith

module _ (now : ℕ) (token : ℕ → String) (enqueued : String → Bool) where
  -- what a row that does not raise has done
  abbrev ScheduledRow : ℕ → String → ℕ → List Job → List Job → Type 0
  ScheduledRow company provider k jobs jobs' =
      ((jobs' ≡ jobs) × (1 ≤ count_blocking company provider jobs))
      ⊎ ((filter (blocks company provider) jobs ≡ [])
          × (jobs'
              ≡ enqueue now (token k) (enqueued (token k))
                  (jobs ++ new_job (token k) provider company none now ∷ [])))

  count_some :
      (sel : Job → Bool) (jobs : List Job) (j : Job)
      → scalar_one_or_none (filter sel jobs) ≡ ok (some j)
      → 1 ≤ length (filter sel jobs)
  unfolding scalar_one_or_none
  count_some sel jobs j h = ground arith

  schedule_row_inv :
      (company : ℕ) (provider : String) (s s' : Scheduled) (jobs : List Job)
      → (schedule_row now token enqueued company provider s jobs).0 ≡ ok s'
      → ScheduledRow company provider s.created jobs
          (schedule_row now token enqueued company provider s jobs).1
  unfolding schedule_row
  schedule_row_inv company provider s s' jobs h =
      elim (Result-cases (scalar_one_or_none (filter (blocks company provider) jobs))) [
        | inl (e, raised) ↦ ground arith
        | inr (none, free) ↦
            elim (Result-cases
              (insert_job (new_job (token s.created) provider company none now) jobs)) [
                | inl (e, raised) ↦ ground arith
                | inr (jobs', added) ↦
                    rw (free, added, schedule_row)
                      (inr (
                        count_none jobs (blocks company provider) free,
                        rw (insert_job_ok _ jobs jobs' added),
                      ))
              ]
        | inr (some j, busy) ↦
            rw (busy, schedule_row) (inl (refl, count_some (blocks company provider) jobs j busy))
      ]

  row_table :
      (company : ℕ) (provider : String) (k : ℕ) (jobs jobs' : List Job)
      → AtMostOne jobs
      → scalar_one_or_none (filter (blocks company provider) jobs) ≡ ok none
      → insert_job (new_job (token k) provider company none now) jobs ≡ ok jobs'
      → AtMostOne (enqueue now (token k) (enqueued (token k)) jobs')
  row_table company provider k jobs jobs' h free e =
      AtMostOne-enqueue now (token k) (enqueued (token k)) jobs' (
        rw (insert_job_ok _ jobs jobs' e) (
          AtMostOne-insert (token k) provider company none now jobs h
            (count_none jobs (blocks company provider) free)))

  schedule_row-AtMostOne :
      (company : ℕ) (provider : String) (s : Scheduled) (jobs : List Job)
      → AtMostOne jobs
      → AtMostOne (schedule_row now token enqueued company provider s jobs).1
  unfolding schedule_row
  schedule_row-AtMostOne company provider s jobs h =
      elim (Result-cases (scalar_one_or_none (filter (blocks company provider) jobs))) [
        | inl (e, raised) ↦ rw (raised, schedule_row) h
        | inr (none, free) ↦
            elim (Result-cases
              (insert_job (new_job (token s.created) provider company none now) jobs)) [
                | inl (e, raised) ↦ rw (free, raised, schedule_row) h
                | inr (jobs', added) ↦
                    rw (free, added, schedule_row)
                      (row_table company provider s.created jobs jobs' h free added)
              ]
        | inr (some j, busy) ↦ rw (busy, schedule_row) h
      ]

  schedule_rows-AtMostOne :
      (rows : List (ℕ × String)) (s : Scheduled) (jobs : List Job)
      → AtMostOne jobs
      → AtMostOne (schedule_rows now token enqueued rows s jobs).1
  unfolding schedule_rows
  schedule_rows-AtMostOne [] s jobs h = h
  schedule_rows-AtMostOne ((company, provider) ∷ rows) s jobs h =
      let keeps = schedule_row-AtMostOne company provider s jobs h in
      elim (Result-cases (schedule_row now token enqueued company provider s jobs).0) [
        | inl (e, raised) ↦ rw (raised, schedule_rows) keeps
        | inr (s', went) ↦ rw (went, schedule_rows) (schedule_rows-AtMostOne rows s' _ keeps)
      ]

  -- one row is either created or skipped, and queued only if created
  schedule_row-counts :
      (company : ℕ) (provider : String) (s s' : Scheduled) (jobs : List Job)
      → (schedule_row now token enqueued company provider s jobs).0 ≡ ok s'
      → (s'.created + s'.skipped ≡ s.created + s.skipped + 1)
        × (s'.queued + s.created ≤ s.queued + s'.created)
  unfolding schedule_row
  schedule_row-counts company provider s s' jobs h = ground arith

  schedule_rows-counts :
      (rows : List (ℕ × String)) (s s' : Scheduled) (jobs : List Job)
      → (schedule_rows now token enqueued rows s jobs).0 ≡ ok s'
      → (s'.created + s'.skipped ≡ s.created + s.skipped + length rows)
        × (s'.queued + s.created ≤ s.queued + s'.created)
  unfolding schedule_rows
  schedule_rows-counts [] s s' jobs h = ground arith
  schedule_rows-counts ((company, provider) ∷ rows) s s' jobs h =
      elim (Result-cases (schedule_row now token enqueued company provider s jobs).0) [
        | inl (e, raised) ↦ ground arith
        | inr (s₁, went) ↦ ground (
          arith,
          schedule_row-counts company provider s s₁ jobs went,
          schedule_rows-counts rows s₁ s'
              (schedule_row now token enqueued company provider s jobs).1,
        )
      ]

  count_blocking-row :
      (company : ℕ) (provider : String) (s s' : Scheduled) (jobs : List Job) (c : ℕ) (p : String)
      → ((id : String) → enqueued id ≡ true)
      → (schedule_row now token enqueued company provider s jobs).0 ≡ ok s'
      → (count_blocking c p jobs
          ≤ count_blocking c p (schedule_row now token enqueued company provider s jobs).1)
        × (1
            ≤ count_blocking company provider
                (schedule_row now token enqueued company provider s jobs).1)
  unfolding enqueue
  count_blocking-row company provider s s' jobs c p always h = ground (
    arith,
    schedule_row_inv company provider s s' jobs h,
    always (token s.created),
    count_blocking-append (token s.created) provider company none now c p jobs,
    count_blocking-append (token s.created) provider company none now company provider jobs,
    ==_iff company company,
    str_eq_refl provider,
  )

  -- no job in flight was lost on the way, and each row has one
  abbrev Served : List Job → List (ℕ × String) → Result Scheduled × List Job → Type 0
  Served before rows (r, after) =
      ((c : ℕ) (p : String) → count_blocking c p before ≤ count_blocking c p after)
      × All (IsBusy after) rows

  schedule_rows_step :
      (company : ℕ) (provider : String) (rows : List (ℕ × String)) (s next : Scheduled)
      (jobs : List Job)
      → (schedule_row now token enqueued company provider s jobs).0 ≡ ok next
      → schedule_rows now token enqueued ((company, provider) ∷ rows) s jobs
        ≡ schedule_rows now token enqueued rows next
            (schedule_row now token enqueued company provider s jobs).1
  unfolding schedule_rows
  schedule_rows_step company provider rows s next jobs went = rw (went, schedule_rows)

  schedule_rows-Served :
      (rows : List (ℕ × String)) (s s' : Scheduled) (jobs : List Job)
      → ((id : String) → enqueued id ≡ true)
      → (schedule_rows now token enqueued rows s jobs).0 ≡ ok s'
      → Served jobs rows (schedule_rows now token enqueued rows s jobs)
  unfolding schedule_rows
  schedule_rows-Served [] s s' jobs always h = (λ c p. omega arith, tt)
  schedule_rows-Served ((company, provider) ∷ rows) s s' jobs always h =
      elim (Result-cases (schedule_row now token enqueued company provider s jobs).0) [
        | inl (e, raised) ↦ ground arith
        | inr (next, went) ↦
            let step = schedule_rows_step company provider rows s next jobs went in
            let jobs' = (schedule_row now token enqueued company provider s jobs).1 in
            let row = count_blocking-row company provider s next jobs in
            let (more, busy) =
              schedule_rows-Served rows next s' jobs' always (rw (went, schedule_rows) at h) in
            subst (Served jobs ((company, provider) ∷ rows)) (sym step) (
              λ c p. omega (arith, more c p, row c p always went),
              (omega (arith, more company provider, row company provider always went), busy),
            )
      ]

-- The nightly task keeps at most one job in flight for each company and provider, whatever rows it
-- is given, whatever the queue answers, and also when it raises.
pub schedule_nightly-AtMostOne :
    (now : ℕ) (token : ℕ → String) (enqueued : String → Bool) (rows : List (ℕ × String))
    (jobs : List Job)
    → AtMostOne jobs
    → AtMostOne (schedule_nightly now token enqueued rows jobs).1
unfolding schedule_nightly
schedule_nightly-AtMostOne now token enqueued rows jobs h =
    schedule_rows-AtMostOne now token enqueued (distinct_rows rows) _ _
      (AtMostOne-update (is_abandoned now) now jobs h)

-- When the queue takes every job and the nightly task returns, every distinct company/provider row
-- was counted as created or as skipped, at most the created ones as queued, and each row has a job
-- in flight.
pub schedule_nightly_serves :
    (now : ℕ) (token : ℕ → String) (enqueued : String → Bool) (rows : List (ℕ × String))
    (jobs : List Job) (s : Scheduled)
    → ((id : String) → enqueued id ≡ true)
    → (schedule_nightly now token enqueued rows jobs).0 ≡ ok s
    → (s.created + s.skipped ≡ length (distinct_rows rows))
      × (s.queued ≤ s.created)
      × All (IsBusy (schedule_nightly now token enqueued rows jobs).1) (distinct_rows rows)
unfolding schedule_nightly
schedule_nightly_serves now token enqueued rows jobs s always h =
    let (total, bound) = schedule_rows-counts now token enqueued (distinct_rows rows) _ s _ h in
    (
      omega arith,
      omega arith,
      (schedule_rows-Served now token enqueued (distinct_rows rows) _ s _ always h).1,
    )
