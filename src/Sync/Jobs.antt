-- ===== src/Sync/Jobs.antt =====
-- Who may read a job by `GET /jobs/{job_id}` of app/sync/router.py.
use app_suscriptions_back.Prelude.{
  ◌≤◌, ◌≡◌, ◌≢◌, refl, String, List, [], ◌∷◌, length, filter, arith,
}
use app_suscriptions_back.Identity.{Profile, admin}
use app_suscriptions_back.Sync.{Job, has_id, is_own, get_job}

-- ids are the primary key
abbrev pub HasKey : String → List Job → Type 0
HasKey job_id jobs = length (filter (has_id job_id) jobs) ≤ 1

filter_own :
    (job_id : String) (current : Profile) (jobs : List Job)
    → filter (has_id job_id) (filter (is_own current) jobs)
      ≡ filter (is_own current) (filter (has_id job_id) jobs)
filter_own job_id current [] = refl
filter_own job_id current (j ∷ jobs) = ground (arith, filter_own job_id current jobs)

get_job_rows :
    (job_id : String) (current : Profile) (found : List Job) (jobs : List Job)
    → current.role ≢ admin
    → filter (has_id job_id) jobs ≡ found
    → length found ≤ 1
    → get_job job_id current jobs ≡ get_job job_id current (filter (is_own current) jobs)
unfolding get_job
get_job_rows job_id current [] jobs member e h = ground (arith, filter_own job_id current jobs)
get_job_rows job_id current (j ∷ []) jobs member e h =
    ground (arith, filter_own job_id current jobs)
get_job_rows job_id current (j ∷ k ∷ found) jobs member e h = absurd (omega arith)

-- For a caller who is no admin the answer depends on the jobs of the caller's company alone: a job
-- of another company answers as one that does not exist.
pub get_job_isolates :
    (job_id : String) (current : Profile) (jobs : List Job)
    → current.role ≢ admin
    → HasKey job_id jobs
    → get_job job_id current jobs ≡ get_job job_id current (filter (is_own current) jobs)
get_job_isolates job_id current jobs member key =
    get_job_rows job_id current (filter (has_id job_id) jobs) jobs member refl key
