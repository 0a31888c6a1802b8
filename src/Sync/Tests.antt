-- ===== src/Sync/Tests.antt =====
-- The jobs of app/sync on concrete tables.
use app_suscriptions_back.Prelude.{
  ℕ, zero, suc, ◌≡◌, ◌≢◌, refl, true, false, String, Option, none, some, List, [], ◌∷◌, length,
  filter, any, All, arith, ◌≤◌, if◌then◌else◌,
}
use app_suscriptions_back.Errors.{ok}
use app_suscriptions_back.Database.{scalar_one_or_none, update_where}
use app_suscriptions_back.Identity.{Profile, admin, member}
use app_suscriptions_back.Routing.Text.{ascii, route_iccid}
use app_suscriptions_back.Routing.Table.{find_routing}
use app_suscriptions_back.Sync.{
  Job, is_stale, new_job, trigger_sync, schedule_nightly, distinct_rows, Scheduled, get_job, is_own,
  blocks, has_id, schedule_rows, schedule_row, is_abandoned, insert_job,
}
use app_suscriptions_back.Sync.InFlight.{AtMostOne}
use app_suscriptions_back.Sync.Trigger.{
  trigger_sync-AtMostOne, Ended, trigger_sync_ends, trigger_sync_heals, AllStale,
}
use app_suscriptions_back.Sync.Nightly.{IsBusy, schedule_nightly-AtMostOne, schedule_nightly_serves}
use app_suscriptions_back.Sync.Jobs.{get_job_isolates}
use app_suscriptions_back.Sync.Crawl.{Answer, World, crawl}
use app_suscriptions_back.Sync.Crawl.Done.{
  Walk, last, more, IsClean, IsDone, route, is_listed, crawl-IsDone,
}
use app_suscriptions_back.Sync.Crawl.Lookup.{crawl_finds}

abbrev boss : Profile
boss = record { id = 1; company_id = some 7; role = admin; full_name = some "x" }

abbrev guest : Profile
guest = record { id = 2; company_id = some 8; role = member; full_name = some "x" }

-- a job of company 7 that was created at 5
abbrev old : Job
old = new_job "old" "kite" 7 (some 1) 5

old-AtMostOne : AtMostOne (old ∷ [])
unfolding blocks
old-AtMostOne c p = ground arith

trigger_sync-AtMostOne_example :
    AtMostOne (trigger_sync "kite" 8_000_000_000 "new" true true boss (old ∷ [])).1
trigger_sync-AtMostOne_example =
    trigger_sync-AtMostOne "kite" 8_000_000_000 "new" true true boss (old ∷ []) old-AtMostOne

trigger_sync_ends_example :
    Ended false 7 "kite"
      (old ∷ [])
      (new_job "new" "kite" 7 (some 1) 8_000_000_000)
      (trigger_sync "kite" 8_000_000_000 "new" true false boss (old ∷ []))
trigger_sync_ends_example =
    trigger_sync_ends "kite" 8_000_000_000 "new" true false boss 7 (old ∷ []) refl

old-AllStale : AllStale "kite" 8_000_000_000 7 (old ∷ [])
unfolding blocks is_stale
old-AllStale = (λ h. refl, tt)

old_absent : any (has_id "new") (old ∷ []) ≡ false
old_absent = refl

trigger_sync_heals_example :
    (trigger_sync "kite" 8_000_000_000 "new" true true boss (old ∷ [])).0 ≡ ok "new"
trigger_sync_heals_example =
    trigger_sync_heals "kite" 8_000_000_000 "new" boss 7 (old ∷ []) refl refl old-AllStale
      old_absent

abbrev rows : List (ℕ × String)
rows = (7, "kite") ∷ (7, "tele2") ∷ (7, "kite") ∷ []

abbrev token : ℕ → String
token zero = "t0"
token (suc n) = "t1"

schedule_nightly-AtMostOne_example :
    AtMostOne (schedule_nightly 6 token (λ i. false) rows (old ∷ [])).1
schedule_nightly-AtMostOne_example =
    schedule_nightly-AtMostOne 6 token (λ i. false) rows (old ∷ []) old-AtMostOne

abbrev one_new : Scheduled
one_new = record { created = 1; skipped = 1; queued = 1 }

nightly_runs : (schedule_nightly 6 token (λ i. true) rows (old ∷ [])).0 ≡ ok one_new
unfolding schedule_nightly schedule_rows distinct_rows schedule_row scalar_one_or_none update_where
    blocks is_abandoned insert_job
nightly_runs = refl

schedule_nightly_serves_example :
    (2 ≡ length (distinct_rows rows))
    × (1 ≤ 1)
    × All (IsBusy (schedule_nightly 6 token (λ i. true) rows (old ∷ [])).1) (distinct_rows rows)
schedule_nightly_serves_example =
    schedule_nightly_serves 6 token (λ i. true) rows (old ∷ []) one_new (λ i. refl) nightly_runs

guest_is_no_admin : guest.role ≢ admin
guest_is_no_admin = cc

get_job_isolates_example :
    get_job "old" guest (old ∷ []) ≡ get_job "old" guest (filter (is_own guest) (old ∷ []))
get_job_isolates_example = get_job_isolates "old" guest (old ∷ []) guest_is_no_admin (omega arith)

-- two pages: the first ends in a blank ICCID, and the second lists an ICCID with a dash
abbrev fetch : Option String → Answer
fetch none = ok ("8934" ∷ "" ∷ [], some "2")
fetch (some c) = ok ("89-35" ∷ [], none)

abbrev pages : List (List String)
pages = ("8934" ∷ "" ∷ []) ∷ ("89-35" ∷ []) ∷ []

walk : Walk fetch none pages
walk = more refl (last refl)

clean : IsClean pages
clean = ((refl, tt), ((refl, tt), tt))

abbrev world : World
world = record { job = old; table = [] }

crawl-IsDone_example :
    IsDone 9 "kite" 7 0 pages world
      (crawl 9 "kite" 7 fetch 2 none 0 world).0
      (crawl 9 "kite" 7 fetch 2 none 0 world).1
crawl-IsDone_example = crawl-IsDone 9 "kite" 7 fetch 2 none pages 0 world walk clean (omega arith)

crawl_finds_example : find_routing ascii "8-8" 7 (crawl 9 "kite" 7 fetch 2 none 0 world).1.table ≡ (
    if is_listed (route_iccid ascii "8-8") pages
    then ok (some (route 9 "kite" 7 (route_iccid ascii "8-8")))
    else find_routing ascii "8-8" 7 [])
crawl_finds_example =
    crawl_finds ascii 9 "kite" 7 fetch 2 none pages 0 world "8-8" tt walk clean (omega arith)
