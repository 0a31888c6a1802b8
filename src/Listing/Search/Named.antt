-- ===== src/Listing/Search/Named.antt =====
-- The calls of a search are those of the registry's adapters, under their providers' names.
use app_suscriptions_back.Prelude.{
  ℕ, String, Option, List, [], ◌∷◌, All, All-append, Bool-cases, inl, inr,
}
use app_suscriptions_back.Domain.{Provider, Adapter, value, is_nonempty}
use app_suscriptions_back.Cursors.{CursorMap, decode_status_cursor}
use app_suscriptions_back.Filters.Query.{ProviderFilters, SearchRequest, search_status_values}
use app_suscriptions_back.Listing.{Services, Report}
use app_suscriptions_back.Listing.WhenOk.{WhenOk, WhenOk-bind, WhenOk-attempt, WhenOk-if}
use app_suscriptions_back.Listing.Global.{is_done}
use app_suscriptions_back.Listing.Collect.Once.{NamesSims, AllNameSims, IsNamed}
use app_suscriptions_back.Listing.SearchCalls.{
  SearchCall, open_statuses, status_calls, prepare_statuses, prepare_search, prepare_searches,
}

status_calls-All :
    {Creds : Type 0} (P : SearchCall Creds → Type 0) (make : Option String → ℕ → SearchCall Creds)
    (statuses : List (Option String)) (limits : List ℕ)
    → ((status : Option String) (limit : ℕ) → P (make status limit))
    → All P (status_calls make statuses limits)
unfolding status_calls
status_calls-All P make [] limits h = tt
status_calls-All P make (status ∷ statuses) [] h = tt
status_calls-All P make (status ∷ statuses) (limit ∷ limits) h =
    (h status limit, status_calls-All P make statuses limits h)

module _ {Creds : Type 0} (s : Services Creds) (company : ℕ) (body : SearchRequest) where
  abbrev pub AllNamed : List (SearchCall Creds) → Type 0
  AllNamed = All (λ call. IsNamed call.query)

  prepare_statuses-AllNamed :
      (name : String) (own : ProviderFilters) (cursor : Option String) (limit : ℕ)
      (adapter : Adapter Creds) (creds : Creds) (report : Report)
      → NamesSims name adapter
      → AllNamed (prepare_statuses s company body name own cursor limit adapter creds report).0
  unfolding prepare_statuses
  prepare_statuses-AllNamed name own cursor limit adapter creds report named =
      elim (Bool-cases (
        is_nonempty
          (open_statuses (decode_status_cursor s.codec cursor) (search_status_values own)))) [
            | inl some_left ↦
                rw (prepare_statuses, some_left)
                  (status_calls-All _ _ _ _ (λ status status_limit. named))
            | inr none_left ↦ rw (prepare_statuses, none_left) tt
          ]

  prepare_search-AllNamed :
      AllNameSims s
      → (cursors : Option CursorMap) (entry : Provider × ProviderFilters) (limits : List ℕ)
        (report : Report)
      → WhenOk
          (λ (prepared : List (SearchCall Creds) × (List ℕ × Report)). AllNamed prepared.0)
          (prepare_search s company body cursors entry limits report)
  unfolding prepare_search
  prepare_search-AllNamed h cursors (provider, own) limits report =
      elim (Bool-cases (is_done cursors (value provider))) [
        | inl done ↦ rw (prepare_search, done) tt
        | inr left ↦
            rw (prepare_search, left)
              (WhenOk-attempt _ (s.load_credentials company (value provider)) _ _ (λ e. tt)
                (λ creds loaded.
                  WhenOk-attempt _ (s.registry (value provider)) _ _ (λ e. tt)
                    (λ adapter known.
                      WhenOk-if _ adapter.searchable _ _
                        (prepare_statuses-AllNamed (value provider) own _ _ adapter creds report
                          (h (value provider) adapter known))
                        tt)))
      ]

  pub prepare_searches-AllNamed :
      AllNameSims s
      → (cursors : Option CursorMap) (entries : List (Provider × ProviderFilters)) (limits : List ℕ)
        (report : Report)
      → WhenOk
          (λ (prepared : List (SearchCall Creds) × Report). AllNamed prepared.0)
          (prepare_searches s company body cursors entries limits report)
  unfolding prepare_searches
  prepare_searches-AllNamed h cursors [] limits report = tt
  prepare_searches-AllNamed h cursors (entry ∷ rest) limits report =
      WhenOk-bind _ _ (prepare_search s company body cursors entry limits report) _
        (prepare_search-AllNamed h cursors entry limits report)
        (λ (calls, (left, report')) named.
          WhenOk-bind _ _ (prepare_searches s company body cursors rest left report') _
            (prepare_searches-AllNamed h cursors rest left report')
            (λ (more, report'') named'. All-append _ calls more named named'))
