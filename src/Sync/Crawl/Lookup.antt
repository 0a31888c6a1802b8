-- ===== src/Sync/Crawl/Lookup.antt =====
-- What `_find_routing` finds after a crawl. The crawl stores each ICCID as the provider wrote it,
-- and the services look up the reduced ICCID.
use app_suscriptions_back.Prelude.{
  ℕ, zero, suc, ◌≤◌, ◌≡◌, refl, Option, none, some, String, List, [], ◌∷◌, length, arith, subst,
  inl, inr, if◌then◌else◌, ==_iff,
}
use app_suscriptions_back.Errors.{ok, Result-cases}
use app_suscriptions_back.Routing.Text.{Unicode, route_iccid}
use app_suscriptions_back.Routing.Table.{
  Table, upsert, HasKey, upsert-HasKey, find_routing, find_routing-eq-owner,
}
use app_suscriptions_back.Sync.Crawl.{
  Answer, World, rows_of, persist_failure, upsert_batch, absorb, finish, crawl,
}
use app_suscriptions_back.Sync.Crawl.Done.{Walk, IsClean, is_listed, route, crawl-IsDone}

module _ (now : ℕ) (provider : String) (company : ℕ) where
  upsert_batch-HasKey :
      (rows : List String) (table table' : Table)
      → HasKey table
      → upsert_batch now provider company rows table ≡ ok table'
      → HasKey table'
  unfolding upsert_batch
  upsert_batch-HasKey [] table table' h e = ground arith
  upsert_batch-HasKey (r ∷ rows) table table' h e =
      upsert_batch-HasKey rows (upsert (route now provider company r) table) table'
        (upsert-HasKey (route now provider company r) table h) (ground arith)

  absorb-HasKey :
      (total total' : ℕ) (page : List String) (next : Option String) (w w' : World)
      → HasKey w.table
      → absorb now provider company total page next w ≡ ok (total', w')
      → HasKey w'.table
  unfolding absorb
  absorb-HasKey total total' page next w w' h e = go (rows_of page) refl
    where
      go : (rows : List String) → rows_of page ≡ rows → HasKey w'.table
      go [] none_left =
          let same = rw (none_left, absorb) at e in subst (λ (t : Table). HasKey t) (ground arith) h
      go (r ∷ rows) some_left =
          elim (Result-cases (upsert_batch now provider company (r ∷ rows) w.table)) [
            | inl (x, refused) ↦
                absurd (let f = rw (some_left, refused, absorb) at e in ground arith)
            | inr (t, written) ↦
                let f = rw (some_left, written, absorb) at e in
                subst (λ (t : Table). HasKey t) (ground arith)
                  (upsert_batch-HasKey (r ∷ rows) w.table t h written)
          ]

  -- The crawl keeps the key of the routing table, however it ends.
  crawl-HasKey :
      (fetch : Option String → Answer) (fuel : ℕ) (c : Option String) (total : ℕ) (w : World)
      → HasKey w.table
      → HasKey (crawl now provider company fetch fuel c total w).1.table
  unfolding crawl finish persist_failure
  crawl-HasKey fetch zero c total w h = h
  crawl-HasKey fetch (suc fuel) c total w h = elim (Result-cases (fetch c)) [
    | inl (x, raised) ↦ rw (raised, crawl) h
    | inr ((page, none), answered) ↦
        elim (Result-cases (absorb now provider company total page (none) w)) [
          | inl (x, refused) ↦ rw (answered, refused, crawl) h
          | inr ((total', w'), took) ↦
              let kept = absorb-HasKey total total' page (none) w w' h took in
              rw (answered, took, crawl) (kept)
        ]
    | inr ((page, some d), answered) ↦
        elim (Result-cases (absorb now provider company total page (some d) w)) [
          | inl (x, refused) ↦ rw (answered, refused, crawl) h
          | inr ((total', w'), took) ↦
              let kept = absorb-HasKey total total' page (some d) w w' h took in
              rw (answered, took, crawl) (crawl-HasKey fetch fuel (some d) total' w' kept)
        ]
  ]

module _ (u : Unicode) (now : ℕ) (provider : String) (company : ℕ) where
  -- After a crawl that reached its last page, on a table that keeps its key, the services find an
  -- ICCID at the crawled provider exactly when some page listed it in its reduced form; any other
  -- ICCID is found as before, also one that a page listed with characters that the services drop.
  pub crawl_finds :
      (fetch : Option String → Answer) (fuel : ℕ) (c : Option String) (pages : List (List String))
      (total : ℕ) (w : World) (asked : String)
      → HasKey w.table
      → Walk fetch c pages
      → IsClean pages
      → length pages ≤ fuel
      → find_routing u asked company (crawl now provider company fetch fuel c total w).1.table ≡ (
          if is_listed (route_iccid u asked) pages
          then ok (some (route now provider company (route_iccid u asked)))
          else find_routing u asked company w.table)
  crawl_finds fetch fuel c pages total w asked key walk clean enough =
      let d = crawl-IsDone now provider company fetch fuel c pages total w walk clean enough in
      let after = (crawl now provider company fetch fuel c total w).1.table in
      let kept = crawl-HasKey now provider company fetch fuel c total w key in
      ground (
        arith,
        d.table (route_iccid u asked),
        find_routing-eq-owner u asked company after kept,
        find_routing-eq-owner u asked company w.table key,
        ==_iff company company,
      )
