-- ===== src/Listing/Iccid/Stored.antt =====
-- The search of an ICCID, and the routing table.
use app_suscriptions_back.Prelude.{◌≡◌, sym, ap, ℕ, String, none, List, [], ◌∷◌, All, inl, inr}
use app_suscriptions_back.Errors.{Result, ok, err, Result-cases}
use app_suscriptions_back.Domain.{Page, SearchFilters}
use app_suscriptions_back.Filters.{or_empty}
use app_suscriptions_back.Routing.Text.{route_iccid}
use app_suscriptions_back.Routing.Table.{Table, PrefixRoute, HasKey}
use app_suscriptions_back.Listing.{SimListOut, Services, Query, response, no_report}
use app_suscriptions_back.Listing.WhenOk.{ok-injective}
use app_suscriptions_back.Listing.Routed.{
  IsStored, IsFound, store_routes-HasKey, store_routes-append, committed-IsFound,
}
use app_suscriptions_back.Listing.Global.{Merged, first, names}
use app_suscriptions_back.Listing.Iccid.{
  merge_lookup, merge_lookups, lookup_page, ask_all, prepare_lookups, find_any,
  list_global_iccid_search,
}

module _ {Creds : Type 0} (s : Services Creds) (company : ℕ) where
  abbrev Stored : Merged → Type 0
  Stored m = HasKey m.table × All (IsStored s.python 0 "" company m.table) m.items

  merge_lookup-Stored :
      (name : String) (answer : Result Page) (m : Merged)
      → Stored m
      → Stored (merge_lookup s company name answer m)
  unfolding merge_lookup
  merge_lookup-Stored name (err e) m h = h
  merge_lookup-Stored name (ok (subs, next)) m (key, h) = (
    store_routes-HasKey s.python s.db_now name company subs m.table key,
    store_routes-append s.python s.db_now name company subs m.table m.items h,
  )

  merge_lookups-Stored :
      (calls : List (Query Creds)) (m : Merged)
      → Stored m
      → Stored (merge_lookups s company calls m)
  unfolding merge_lookups
  merge_lookups-Stored [] m h = h
  merge_lookups-Stored (call ∷ calls) m h =
      merge_lookups-Stored calls _ (merge_lookup-Stored call.name (response call) m h)

  ask_all-IsFound :
      (iccid : String) (table : Table) (out : SimListOut)
      → HasKey table
      → (ask_all s company iccid table).0 ≡ ok out
      → All (IsFound s.python.unicode company (ask_all s company iccid table).1) out.items
  unfolding ask_all lookup_page
  ask_all-IsFound iccid table out key returned =
      elim (Result-cases (prepare_lookups s company iccid names no_report)) [
        | inl (e, failed) ↦ cc (rw (ask_all, failed) at returned)
        | inr (plan, planned) ↦
            let m = merge_lookups s company plan.0 (first s company table plan.1) in
            let (key', stored) : Stored m =
              merge_lookups-Stored plan.0 (first s company table plan.1) (key, tt) in
            let shown : lookup_page s company m ≡ out =
              ok-injective out (rw (ask_all, planned) at returned) in
            rw (ask_all, planned, sym (ap (λ page. page.items) shown))
              (committed-IsFound s.python company table m.table m.items key' stored)
      ]

  -- An ICCID that no routing table knows is asked of the providers: every SIM that one of them
  -- answers with is afterwards found by the lookup of the other endpoints as a SIM of the company.
  pub iccid_search-IsFound :
      (prefixes : List PrefixRoute) (filters : SearchFilters) (table : Table) (out : SimListOut)
      → HasKey table
      → find_any s company prefixes (route_iccid s.python.unicode (or_empty filters.iccid)) table
        ≡ ok none
      → (list_global_iccid_search s company prefixes filters table).0 ≡ ok out
      → All
          (IsFound s.python.unicode company
            (list_global_iccid_search s company prefixes filters table).1)
          out.items
  unfolding list_global_iccid_search
  iccid_search-IsFound prefixes filters table out key unknown returned =
      rw (list_global_iccid_search, unknown)
        (ask_all-IsFound _ table out key (rw (list_global_iccid_search, unknown) at returned))
