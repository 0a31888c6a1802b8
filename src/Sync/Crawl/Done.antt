-- ===== src/Sync/Crawl/Done.antt =====
-- A crawl that reaches the last page of its provider.
use app_suscriptions_back.Prelude.{
  ℕ, zero, suc, ◌+◌, ◌≤◌, ◌≡◌, refl, sym, subst, Bool, false, ◌||◌, Option, none, some, String,
  List, [], ◌∷◌, length, any, All, arith, str_eq, str_eq_iff, if◌then◌else◌,
}
use app_suscriptions_back.Errors.{ok}
use app_suscriptions_back.Routing.Table.{Route, Table, upsert, owner, owner-upsert}
use app_suscriptions_back.Sync.{Job, done}
use app_suscriptions_back.Sync.Crawl.{
  Answer, World, Outcome, finished, rows_of, upsert_batch, absorb, finish, crawl,
}

-- no ICCID twice
abbrev pub IsDistinct : List String → Type 0
IsDistinct [] = Unit
IsDistinct (r ∷ rows) = (any (str_eq r) rows ≡ false) × IsDistinct rows

module _ (now : ℕ) (provider : String) (company : ℕ) where
  abbrev pub route : String → Route
  route iccid = record {
    iccid = iccid;
    provider = provider;
    company_id = company;
    last_seen_at = now;
  }

  -- what a table holds after `rows` were written over `table`
  abbrev pub Holds : List String → Table → Table → Type 0
  Holds rows table table' =
      (i : String)
      → owner i table' ≡ (if any (str_eq i) rows then some (route i) else owner i table)

  pub upsert_batch_lem :
      (rows : List String) (table : Table)
      → IsDistinct rows
      → (table' : Table) × (upsert_batch now provider company rows table ≡ ok table')
        × Holds rows table table'
  unfolding upsert_batch
  upsert_batch_lem [] table h = (table, refl, λ i. refl)
  upsert_batch_lem (r ∷ rows) table (fresh, h) =
      let (table', written, holds) = upsert_batch_lem rows (upsert (route r) table) h in
      (
        table',
        rw fresh written,
        λ i. ground (
          arith,
          holds i,
          owner-upsert (route r) i table,
          str_eq_iff i r,
          str_eq_iff r i,
          λ (e : i ≡ r). subst (λ k. any (str_eq k) rows ≡ false) (sym e) fresh,
        ),
      )

-- The pages from a cursor to the last one, as the provider answers.
pub data Walk (fetch : Option String → Answer) : Option String → List (List String) → Type 0 where
  last :
      {c : Option String} {page : List String}
      → fetch c ≡ ok (page, none)
      → Walk fetch c (page ∷ [])
  more :
      {c : Option String} {page : List String} {d : String} {pages : List (List String)}
      → fetch c ≡ ok (page, some d)
      → Walk fetch (some d) pages
      → Walk fetch c (page ∷ pages)

abbrev pub count_rows : List (List String) → ℕ
count_rows [] = 0
count_rows (page ∷ pages) = length (rows_of page) + count_rows pages

abbrev pub is_listed : String → List (List String) → Bool
is_listed i [] = false
is_listed i (page ∷ pages) = any (str_eq i) (rows_of page) || is_listed i pages

abbrev pub IsClean : List (List String) → Type 0
IsClean pages = All (λ page. IsDistinct (rows_of page)) pages

-- how a finished crawl leaves the job
abbrev pub finished_job : ℕ → ℕ → Job → Job
finished_job now total j = record j {
  status = done;
  finished_at = some now;
  progress_done = total;
  cursor = none;
}

module _ (now : ℕ) (provider : String) (company : ℕ) where
  absorb_lem :
      (total : ℕ) (page : List String) (next : Option String) (w : World)
      → IsDistinct (rows_of page)
      → (w' : World) × (absorb now provider company total page next w
          ≡ ok (total + length (rows_of page), w'))
        × Holds now provider company (rows_of page) w.table w'.table
        × (finished_job now 0 w'.job ≡ finished_job now 0 w.job)
  unfolding absorb
  absorb_lem total page next w h = go (rows_of page) refl
    where
      go :
          (rows : List String)
          → rows_of page ≡ rows
          → (w' : World) × (absorb now provider company total page next w
              ≡ ok (total + length (rows_of page), w'))
            × Holds now provider company (rows_of page) w.table w'.table
            × (finished_job now 0 w'.job ≡ finished_job now 0 w.job)
      go [] e = (w, rw (e, absorb) (ground arith), rw e (λ i. refl), refl)
      go (r ∷ rows) e =
          let (table', written, holds) =
            upsert_batch_lem now provider company (r ∷ rows) w.table (rw e at h) in
          (
            record {
              job = record (w.job) { progress_done = total + length (r ∷ rows); cursor = next };
              table = table';
            },
            rw (e, written, absorb),
            rw e holds,
            refl,
          )

  -- What a crawl from `w` that ended as `o` and `w'` has done with these pages.
  pub record IsDone (total : ℕ) (pages : List (List String)) (w : World) (o : Outcome) (w' : World)
      : Type 0 where
    pub outcome : o ≡ finished (total + count_rows pages)
    pub job : w'.job ≡ finished_job now (total + count_rows pages) w.job
    pub table :
        (i : String)
        → owner i w'.table
          ≡ (if is_listed i pages then some (route now provider company i) else owner i w.table)

  -- A job whose pages come to an end, and list no ICCID twice on one page, ends as done with enough
  -- requests: it counts every row, clears its cursor, routes every ICCID that was listed to the
  -- job's provider and company, and leaves every other ICCID as it was.
  pub crawl-IsDone :
      (fetch : Option String → Answer) (fuel : ℕ) (c : Option String) (pages : List (List String))
      (total : ℕ) (w : World)
      → Walk fetch c pages
      → IsClean pages
      → length pages ≤ fuel
      → IsDone total pages w
          (crawl now provider company fetch fuel c total w).0
          (crawl now provider company fetch fuel c total w).1
  unfolding crawl finish
  crawl-IsDone fetch zero c pages total w (last e) clean h = absurd (omega arith)
  crawl-IsDone fetch zero c pages total w (more e walk) clean h = absurd (omega arith)
  crawl-IsDone fetch (suc fuel) c pages total w (last {page = page} e) (clean, _) h =
      let (w', done_page, holds, same) = absorb_lem total page none w clean in
      rw (e, done_page, crawl)
        (record {
          outcome = ground arith;
          job = ground (arith, same);
          table = λ i. ground (arith, holds i);
        })
  crawl-IsDone fetch (suc fuel) c pages total w (more {page = page} {d = d} {pages = rest} e walk)
        (clean, cleans) h =
      let (w', done_page, holds, same) = absorb_lem total page (some d) w clean in
      let ih =
        crawl-IsDone fetch fuel (some d) rest (total + length (rows_of page)) w' walk cleans
          (omega arith) in
      rw (e, done_page, crawl)
        (record {
          outcome = ground (arith, ih.outcome);
          job = ground (arith, ih.job, same);
          table = λ i. ground (arith, ih.table i, holds i);
        })
