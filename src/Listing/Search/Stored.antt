-- ===== src/Listing/Search/Stored.antt =====
-- A search over several providers: what it shows can be looked up, and is shown once.
use app_suscriptions_back.Prelude.{
  ◌≡◌, refl, sym, ap, ℕ, String, Option, none, some, List, [], ◌∷◌, All, Bool-cases, inl, inr,
}
use app_suscriptions_back.Errors.{Result, ok, err, Result-cases}
use app_suscriptions_back.Domain.{Subscription, Page}
use app_suscriptions_back.Filters.{apply_post_filters}
use app_suscriptions_back.Filters.Query.{SearchRequest}
use app_suscriptions_back.Routing.Table.{Table, HasKey}
use app_suscriptions_back.Cursors.{decode_global_cursor}
use app_suscriptions_back.Listing.{SimListOut, Services, response, no_report}
use app_suscriptions_back.Listing.WhenOk.{ok-injective, WhenOk-value}
use app_suscriptions_back.Listing.Search.Named.{AllNamed, prepare_searches-AllNamed}
use app_suscriptions_back.Listing.Routed.{
  IsStored, IsFound, store_routes-HasKey, store_routes-stays, store_routes-stores,
  committed-IsFound,
}
use app_suscriptions_back.Listing.Collect.{ItemKey, set_error}
use app_suscriptions_back.Listing.Collect.Once.{
  CollectedOnce, IsShownOnce, add_subs-CollectedOnce, add_subs-All, AllNameSims, AnswersOf,
  response-AnswersOf, apply_post_filters-AllOf, collected-IsShownOnce,
}
use app_suscriptions_back.Listing.Global.{names}
use app_suscriptions_back.Listing.SearchCalls.{
  selected, selected_names, skip_unselected, default_limits, SearchCall, prepare_searches,
}
use app_suscriptions_back.Listing.Search.{
  Found, merge_search, merge_searches, keep_next, search_page, no_answer,
  search_via_provider_filters,
}

-- the key of a SIM in a search: its provider and its ICCID
abbrev pub search_key : String → Subscription → ItemKey
search_key name sub = name ∷ sub.iccid ∷ []

module _ {Creds : Type 0} (s : Services Creds) (company : ℕ) (body : SearchRequest) where
  abbrev Good : Found → Type 0
  Good f =
      HasKey f.table
      × All (IsStored s.python 0 "" company f.table) f.collected.items
      × CollectedOnce s.python search_key f.collected

  keep_next-Good :
      (call : SearchCall Creds) (next : Option String) (f : Found)
      → Good f
      → Good (keep_next s company body call next f)
  keep_next-Good call none f h = h
  keep_next-Good call (some next) f h = elim (Bool-cases call.use_next_cursor) [
    | inl one ↦ rw one h
    | inr many ↦ rw many h
  ]

  merge_search-Good :
      (call : SearchCall Creds) (answer : Result Page) (f : Found)
      → AnswersOf call.query.name answer
      → Good f
      → Good (merge_search s company body call answer f)
  unfolding merge_search set_error
  merge_search-Good call (err e) f own h = h
  merge_search-Good call (ok (raw, next)) f own (key, stored, once) =
      let name = call.query.name in
      let subs = apply_post_filters s.python call.query.filters raw in
      keep_next-Good call next _ (
        store_routes-HasKey s.python s.db_now name company subs f.table key,
        add_subs-All _ s.python name (search_key name) subs f.collected
            (store_routes-stays s.python s.db_now name company subs f.table f.collected.items
              stored)
            (store_routes-stores s.python s.db_now name company subs f.table),
        add_subs-CollectedOnce s.python search_key name subs f.collected
            (apply_post_filters-AllOf s.python call.query.filters name raw own) once,
      )

  merge_searches-Good :
      (calls : List (SearchCall Creds)) (f : Found)
      → AllNamed s company body calls
      → Good f
      → Good (merge_searches s company body calls f)
  unfolding merge_searches
  merge_searches-Good [] f named h = h
  merge_searches-Good (call ∷ calls) f (named, all_named) h =
      merge_searches-Good calls _ all_named
        (merge_search-Good call (response call.query) f (response-AnswersOf call.query named) h)

  -- When every registered adapter gives SIMs under its provider's name, a search that returns shows
  -- no two SIMs with the same provider and ICCID, also when several statuses were asked for, and each SIM that it shows is afterwards found by the lookup of the other endpoints as a
  -- SIM of the company.
  pub search-IsFound :
      AllNameSims s
      → (table : Table) (out : SimListOut) → HasKey table
      → (search_via_provider_filters s company body table).0 ≡ ok out
      → IsShownOnce s.python search_key out.items
        × All
            (IsFound s.python.unicode company (search_via_provider_filters s company body table).1)
            out.items
  unfolding search_via_provider_filters search_page
  search-IsFound names_sims table out key returned =
      elim (Result-cases (
        prepare_searches s company body (decode_global_cursor s.codec body.cursor) (selected body)
          (default_limits body) (skip_unselected (selected_names body) names no_report))) [
            | inl (e, failed) ↦ cc (rw (search_via_provider_filters, failed) at returned)
            | inr (plan, planned) ↦
                let f =
                  merge_searches s company body plan.0 (no_answer s company body table plan.1) in
                let (key', stored, once) : Good f =
                  merge_searches-Good plan.0 _
                    (WhenOk-value _ _ plan planned (
                      prepare_searches-AllNamed s company body names_sims
                        (decode_global_cursor s.codec body.cursor) (selected body)
                        (default_limits body)
                        (skip_unselected (selected_names body) names no_report)))
                    (key, tt, (tt, refl)) in
                let shown : search_page s company body f ≡ out =
                  ok-injective out (rw (search_via_provider_filters, planned) at returned) in
                rw (search_via_provider_filters, planned, sym (ap (λ page. page.items) shown))
                  (
                    collected-IsShownOnce s.python search_key f.collected once,
                    committed-IsFound s.python company table f.table f.collected.items key' stored,
                  )
          ]
