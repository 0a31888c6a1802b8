-- ===== src/Endpoints/Lists.antt =====
-- `list_sims`, `search_sims`, `admin_list_sims` and `admin_search_sims`.
use app_suscriptions_back.Prelude.{
  ℕ, String, Bool, true, false, not, ◌&&◌, Option, none, some, List, if◌then◌else◌,
}
use app_suscriptions_back.Errors.{Result, ok, err, ◌>>=◌}
use app_suscriptions_back.Domain.{SearchFilters, Provider, tele2, value, is_set}
use app_suscriptions_back.Filters.Query.{SearchRequest}
use app_suscriptions_back.Routing.Table.{Table, PrefixRoute}
use app_suscriptions_back.Listing.{SimListOut, Services}
use app_suscriptions_back.Listing.Global.{list_via_routing_index}
use app_suscriptions_back.Listing.Provider.{list_via_provider_search}
use app_suscriptions_back.Listing.Iccid.{list_global_iccid_search}
use app_suscriptions_back.Listing.Search.{search_via_provider_filters}
use app_suscriptions_back.Listing.Credentials.{CredentialRow}
use app_suscriptions_back.Listing.Admin.{list_via_admin_credentials}
use app_suscriptions_back.Listing.AdminSearch.{search_via_admin_credentials}
use app_suscriptions_back.Endpoints.{
  SimQuery, ListAnswer, page, modified_since_required, build_filters, cursor_has_modified_since,
}

abbrev pub is_tele2 : Option Provider → Bool
is_tele2 (some tele2) = true
is_tele2 _ = false

-- the answer of a listing, with the table that it leaves
abbrev pub answer_page : Result SimListOut × Table → Result ListAnswer × Table
answer_page (result, table) = (result >>= λ out. ok (page out), table)

module _ {Creds : Type 0} (s : Services Creds) (parse : String → Option (Result ℕ)) where
  -- a listing of one provider, which leaves the table alone when it raises
  abbrev pub provider_listing :
      String → Option String → ℕ → SearchFilters → ℕ → Table → Result SimListOut × Table
  provider_listing name cursor limit filters company table =
      elim (list_via_provider_search s company name cursor limit filters table) [
        | err e ↦ (err e, table)
        | ok (out, table') ↦ (ok out, table')
      ]

  -- `list_sims`
  unfoldable pub list_sims :
      List PrefixRoute
      → Option String
      → ℕ
      → Option Provider
      → SimQuery
      → ℕ
      → Table
      → Result ListAnswer × Table
  unfolding build_filters cursor_has_modified_since list_via_provider_search list_via_routing_index
      list_global_iccid_search value
  list_sims prefixes cursor limit provider query company table =
      if is_tele2 provider
        && not (is_set query.modified_since)
        && not (cursor_has_modified_since cursor)
      then (ok modified_since_required, table)
      else elim (build_filters s.python parse query) [
        | err e ↦ (err e, table)
        | ok filters ↦ answer_page (elim provider [
          | some p ↦ provider_listing (value p) cursor limit filters company table
          | none ↦
              list_via_routing_index s company (list_global_iccid_search s company prefixes) cursor
                limit filters table
        ])
      ]

  -- `search_sims`
  unfoldable pub search_sims : SearchRequest → ℕ → Table → Result SimListOut × Table
  unfolding search_via_provider_filters
  search_sims body company table = search_via_provider_filters s company body table

  -- `admin_list_sims`
  unfoldable pub admin_list_sims :
      List CredentialRow → Option String → ℕ → Option Provider → SimQuery → Result SimListOut
  unfolding build_filters list_via_admin_credentials
  admin_list_sims rows cursor limit provider query =
      build_filters s.python parse query >>= λ filters.
      list_via_admin_credentials s rows cursor limit filters provider

  -- `admin_search_sims`
  unfoldable pub admin_search_sims : List CredentialRow → SearchRequest → Result SimListOut
  unfolding search_via_admin_credentials
  admin_search_sims rows body = search_via_admin_credentials s rows body
