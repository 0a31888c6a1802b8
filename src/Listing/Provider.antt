-- ===== src/Listing/Provider.antt =====
-- `_list_via_provider_search`: the listing of one provider.
use Prim.Native.String.{◌++◌ as append}
use app_suscriptions_back.Prelude.{
  ℕ, ◌≡◌, refl, ap, subst, String, false, Option, none, some, [], ◌∷◌, map, length, All, filter,
  if◌then◌else◌, inl, inr,
}
use app_suscriptions_back.Errors.{
  Result, ok, err, ◌>>=◌, domain, string, listing_precondition_failed, Result-cases,
}
use app_suscriptions_back.Domain.{SearchFilters, Page, is_nonempty}
use app_suscriptions_back.Normalization.Parts.{to_out}
use app_suscriptions_back.Filters.{apply_post_filters, post_filter_matches}
use app_suscriptions_back.Filters.Shortcut.{apply_post_filters-eq-filter}
use app_suscriptions_back.Dispatch.{plain_status, answered}
use app_suscriptions_back.Routing.Table.{Table, HasKey}
use app_suscriptions_back.Listing.{SimListOut, Services, store_routes}
use app_suscriptions_back.Listing.WhenOk.{ok-injective}
use app_suscriptions_back.Listing.Routed.{
  IsFound, store_routes-HasKey, store_routes-append, committed-IsFound, is_nonempty-map,
}

-- the error for a provider that does not list
abbrev pub not_listable {ℓ} : {A : Type ℓ} → String → Result A
not_listable name = err (
    domain (record {
      kind = listing_precondition_failed;
      detail = some (
          append "Provider '" (
            append name
              "' does not expose a native subscription listing. Use the global listing endpoint (omit ?provider=) or fetch SIMs individually by ICCID."));
      extra = ("provider", string name) ∷ ("missing_capability", string "SearchableProvider") ∷ [];
    }))

module _ {Creds : Type 0} (s : Services Creds) (company : ℕ) (name : String) where
  open s use {python, registry, load_credentials, db_now}

  -- the page of the provider, before the service filters it
  unfoldable pub provider_page : Option String → ℕ → SearchFilters → Result Page
  provider_page cursor limit filters = load_credentials company name >>= λ creds.
      registry name >>= λ adapter.
      if adapter.searchable
      then adapter.list_subscriptions creds cursor limit filters
      else not_listable name

  -- The SIMs that are kept, stored and shown.
  unfoldable pub show_page : SearchFilters → Table → Page → SimListOut × Table
  unfolding apply_post_filters store_routes to_out
  show_page filters table (subs, next) =
      let kept = apply_post_filters python filters subs in
      (
        record {
          items = map (to_out python) kept;
          next_cursor = next;
          total = none;
          is_partial = false;
          failed_providers = [];
          provider_statuses = plain_status name answered (length kept) ∷ [];
        },
        if is_nonempty kept
            then store_routes python.unicode db_now name company kept table
            else table,
      )

  -- `_list_via_provider_search`
  unfoldable pub list_via_provider_search :
      Option String → ℕ → SearchFilters → Table → Result (SimListOut × Table)
  unfolding provider_page show_page
  list_via_provider_search cursor limit filters table =
      provider_page cursor limit filters >>= λ page. ok (show_page filters table page)

  show_page-IsFound :
      (filters : SearchFilters) (table : Table) (page : Page)
      → HasKey table
      → All
          (IsFound python.unicode company (show_page filters table page).1)
          (show_page filters table page).0.items
  unfolding show_page
  show_page-IsFound filters table (subs, next) key =
      let kept = apply_post_filters python filters subs in
      let stored = store_routes python.unicode db_now name company kept table in
      let found =
        committed-IsFound python company table stored (map (to_out python) kept)
          (store_routes-HasKey python db_now name company kept table key)
          (store_routes-append python db_now name company kept table [] tt) in
      rw (is_nonempty-map (to_out python) kept) at found

  -- the SIMs of a page that match, and the page's cursor; each SIM is found in the table
  abbrev pub Shows : SearchFilters → Page → SimListOut × Table → Type 0
  Shows filters page (out, table') =
      (out.items ≡ map (to_out python) (filter (post_filter_matches python filters) page.0))
      × (out.next_cursor ≡ page.1)
      × All (IsFound python.unicode company table') out.items

  -- A provider's listing that returns shows exactly the SIMs of the provider's page that match the
  -- filters, in its order and with its cursor, and each of them is afterwards found by the lookup
  -- of the other endpoints as a SIM of the company.
  pub list_via_provider_search-exact :
      (cursor : Option String) (limit : ℕ) (filters : SearchFilters) (table : Table)
      (out : SimListOut) (table' : Table)
      → HasKey table
      → list_via_provider_search cursor limit filters table ≡ ok (out, table')
      → (page : Page) × (provider_page cursor limit filters ≡ ok page)
        × Shows filters page (out, table')
  unfolding list_via_provider_search show_page
  list_via_provider_search-exact cursor limit filters table out table' key returned =
      elim (Result-cases (provider_page cursor limit filters)) [
        | inl (e, failed) ↦ cc (rw (list_via_provider_search, failed) at returned)
        | inr (page, answer) ↦ (
          page,
          answer,
          subst (λ shown. Shows filters page shown)
              (ok-injective (out, table') (rw (list_via_provider_search, answer) at returned))
              (
                ap (map (to_out python)) (apply_post_filters-eq-filter python filters page.0),
                refl,
                show_page-IsFound filters table page key,
              ),
        )
      ]
