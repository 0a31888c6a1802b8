-- ===== src/Sync/Race.antt =====
-- Two triggers of app/sync/router.py that overlap. The check for a job in flight and the insertion
-- are not one atomic step, and no index of sync_jobs excludes a second job.
use app_suscriptions_back.Prelude.{
  ℕ, ◌+◌, ◌≤◌, ◌≡◌, refl, false, String, Bool, some, List, [], ◌∷◌, ◌++◌, filter, filter-append,
  any, arith, ==_iff, str_eq_refl, Option,
}
use app_suscriptions_back.Errors.{ok, err, other}
use app_suscriptions_back.Database.{update_where}
use app_suscriptions_back.Identity.{Profile}
use app_suscriptions_back.Sync.{
  Job, stale_cutoff, blocks, is_stale, new_job, open_job, has_id, trigger_for,
}
use app_suscriptions_back.Sync.InFlight.{blocks-new_job}
use app_suscriptions_back.Sync.Trigger.{healed}

module _ (provider : String) (now company : ℕ) (user : Option ℕ) (first_id second_id : String) where
  -- the table after both insertions are committed
  abbrev pub both : List Job → List Job
  both jobs =
      jobs
      ++ new_job first_id provider company user now
        ∷ new_job second_id provider company user now
        ∷ []

  update_none :
      (t : ℕ) (jobs : List Job)
      → filter (blocks company provider) jobs ≡ []
      → healed provider t company jobs ≡ jobs
  unfolding update_where
  update_none t [] free = refl
  update_none t (j ∷ jobs) free = ground (arith, update_none t jobs)

  filter-both :
      (t : ℕ) (jobs : List Job)
      → t ≤ now + stale_cutoff
      → filter (blocks company provider) jobs ≡ []
      → healed provider t company (both jobs) ≡ both jobs
  unfolding update_where is_stale
  filter-both t [] h free = ground arith
  filter-both t (j ∷ jobs) h free = ground (arith, filter-both t jobs)

  two_blocking :
      (jobs : List Job)
      → filter (blocks company provider) jobs ≡ []
      → filter (blocks company provider) (both jobs)
        ≡ new_job first_id provider company user now
          ∷ new_job second_id provider company user now
          ∷ []
  two_blocking jobs free = ground (
    arith,
    filter-append (blocks company provider) jobs (
        new_job first_id provider company user now
        ∷ new_job second_id provider company user now
        ∷ []),
    blocks-new_job first_id provider company user now company provider,
    blocks-new_job second_id provider company user now company provider,
    ==_iff company company,
    str_eq_refl provider,
  )

-- With no job in flight, two triggers that read the table before either commits both pass the
-- check. On the table that has both new jobs, as they were inserted, a trigger for this company and
-- provider up to two hours later raises MultipleResultsFound and changes nothing.
pub racing_triggers :
    (provider : String) (now company : ℕ) (user : Option ℕ) (first_id second_id third_id : String)
    (jobs : List Job) (later : ℕ) (enqueued : Bool) (current : Profile)
    → filter (blocks company provider) jobs ≡ []
    → any (has_id first_id) jobs ≡ false
    → any (has_id second_id) jobs ≡ false
    → current.company_id ≡ some company
    → later ≤ now + stale_cutoff
    → (open_job provider now first_id company user jobs
        ≡ ok (jobs ++ new_job first_id provider company user now ∷ []))
      × (open_job provider now second_id company user jobs
          ≡ ok (jobs ++ new_job second_id provider company user now ∷ []))
      × (trigger_for provider later third_id enqueued current
            (both provider now company user first_id second_id jobs)
          ≡ (
            err (other "MultipleResultsFound"),
            both provider now company user first_id second_id jobs,
          ))
unfolding open_job trigger_for
racing_triggers provider now company user first_id second_id third_id jobs later enqueued current
      free f₁ f₂ own h =
    (
      ground (arith, update_none provider now company user first_id second_id now jobs free),
      ground (arith, update_none provider now company user first_id second_id now jobs free),
      ground (
        arith,
        filter-both provider now company user first_id second_id later jobs h free,
        two_blocking provider now company user first_id second_id jobs free,
      ),
    )
