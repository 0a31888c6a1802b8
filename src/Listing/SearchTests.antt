-- ===== src/Listing/SearchTests.antt =====
-- Searches, an administrator's listings, and the parts that they use, on the company of Tests.
use app_suscriptions_back.Prelude.{
  ℕ, List, ltb, subst, sym, Bool-cases, inl, inr, str_eq_iff, ◌≤◌, ◌/◌, ◌+◌, ◌≡◌, refl, String,
  true, not, ◌&&◌, none, some, [], ◌∷◌, length, All, arith, filter, if◌then◌else◌, str_eq,
}
use app_suscriptions_back.Errors.{ok}
use app_suscriptions_back.Domain.{
  Fields, end, field, null, string, object, SearchFilters, Page, no_filters, value, kite,
}
use app_suscriptions_back.Dict.{get, has}
use app_suscriptions_back.Database.{scalar_one_or_none}
use app_suscriptions_back.Cursors.{
  Codec, CursorMap, known, decode_global_cursor, encode_global_cursor, decode_status_cursor,
  decode_cursor, decode_admin_cursor, dump, rstrip_equals, equals_signs, length_of,
}
use app_suscriptions_back.Cursors.RoundTrip.{
  decode-encode_global_cursor, IsPadded, Writes, find, has_key,
}
use app_suscriptions_back.Dispatch.{call_limits, limits_from}
use app_suscriptions_back.Dispatch.Limits.{sum, call_limits_share}
use app_suscriptions_back.Filters.{apply_post_filters, post_filter_matches}
use app_suscriptions_back.Filters.Shortcut.{apply_post_filters-eq-filter}
use app_suscriptions_back.Filters.Query.{
  SearchRequest, ProviderFilters, search_status_values, dedupe, given, is_member,
}
use app_suscriptions_back.Filters.Query.Statuses.{IsDistinct, asked_for, search_status_values-exact}
use app_suscriptions_back.Routing.Text.{
  ascii, route_iccid, normalize_iccid, routing_prefix, strip, count,
}
use app_suscriptions_back.Routing.Table.{find_routing, find_prefix_routing, is_route}
use app_suscriptions_back.Listing.{SimListOut}
use app_suscriptions_back.Listing.Routed.{IsFound}
use app_suscriptions_back.Listing.Collect.Once.{IsShownOnce, AllOf, NamesSims, AllNameSims}
use app_suscriptions_back.Listing.WhenOk.{ok-injective}
use app_suscriptions_back.Listing.Provider.{
  provider_page, show_page, list_via_provider_search, list_via_provider_search-exact, Shows,
}
use app_suscriptions_back.Listing.Iccid.{
  find_any, ask_all, prepare_lookup, prepare_lookups, merge_lookup, list_global_iccid_search,
}
use app_suscriptions_back.Listing.SearchCalls.{
  prepare_search, prepare_searches, prepare_statuses, selected, skip_unselected,
}
use app_suscriptions_back.Listing.Search.{search_via_provider_filters}
use app_suscriptions_back.Listing.Search.Stored.{search_key, search-IsFound}
use app_suscriptions_back.Listing.Credentials.{
  CredentialRow, active_admin_credential_rows, order_rows, insert_row,
}
use app_suscriptions_back.Listing.Admin.{
  item_key, prepare_row, prepare_rows, list_via_admin_credentials,
}
use app_suscriptions_back.Listing.AdminOnce.{list_via_admin_credentials-Once}
use app_suscriptions_back.Listing.Fixtures.{plain_python, kite_adapter, sim, services, returned}

call_limits_seven : call_limits 7 3 ≡ 3 ∷ 2 ∷ 2 ∷ []
unfolding call_limits limits_from
call_limits_seven = refl

call_limits_share_example :
    (length (call_limits 7 3) ≡ 3)
    × (sum (call_limits 7 3) ≡ 7)
    × All (λ limit. (7 / 3 ≤ limit) × (limit ≤ 7 / 3 + 1)) (call_limits 7 3)
call_limits_share_example = call_limits_share 7 3 (omega arith)

-- A cursor map, and its JSON text, object and base64 form.
abbrev two_cursors : CursorMap
two_cursors = ("kite", some "2") ∷ ("tele2", none) ∷ []

abbrev json_text : String
json_text = "{\"kite\":\"2\",\"tele2\":null}"

abbrev json_object : Fields
json_object = field "kite" (string "2") (field "tele2" null end)

abbrev base64_text : String
base64_text = "eyJraXRlIjoiMiIsInRlbGUyIjpudWxsfQ=="

-- Python's libraries on these values; other values they refuse.
abbrev kite_codec : Codec
kite_codec = record {
  dumps = λ d. json_text;
  loads = λ text. if str_eq text json_text then some (object json_object) else none;
  b64encode = λ text. if str_eq text json_text then base64_text else "";
  b64decode = λ text. if str_eq text base64_text then some json_text else none;
  text_of = λ v. elim v [ string s ↦ s | _ ↦ "" ];
}

base64_text-IsPadded : IsPadded base64_text
unfolding equals_signs length_of
base64_text-IsPadded = record {
  body = "eyJraXRlIjoiMiIsInRlbGUyIjpudWxsfQ";
  signs = 2;
  made = refl;
  plain = refl;
  few = omega arith;
  whole = refl;
}

two_cursors_written : Writes two_cursors json_object
unfolding find has_key get has
two_cursors_written key = ground arith

decode-encode_global_cursor_example :
    (back : CursorMap) × (decode_global_cursor kite_codec
        (encode_global_cursor kite_codec two_cursors)
      ≡ some back)
    × ((key : String) → get key back ≡ (if has key known then get key two_cursors else none))
decode-encode_global_cursor_example =
    decode-encode_global_cursor kite_codec ("kite", some "2") (("tele2", none) ∷ []) json_object
      base64_text-IsPadded refl refl two_cursors_written (λ cursor. refl)

-- the token has no padding
token_of_two : dump kite_codec two_cursors ≡ "eyJraXRlIjoiMiIsInRlbGUyIjpudWxsfQ"
unfolding dump rstrip_equals
token_of_two = refl

-- the SIMs with an IMEI
abbrev with_imei : SearchFilters
with_imei = record no_filters { imei = some "35" }

apply_post_filters-eq-filter_example :
    apply_post_filters plain_python with_imei (sim ∷ [])
    ≡ filter (post_filter_matches plain_python with_imei) (sim ∷ [])
apply_post_filters-eq-filter_example =
    apply_post_filters-eq-filter plain_python with_imei (sim ∷ [])

abbrev two_statuses : ProviderFilters
two_statuses = record {
  filters = no_filters;
  cursor = none;
  limit = none;
  status = some "ACTIVE";
  statuses = "" ∷ "TEST" ∷ "ACTIVE" ∷ [];
}

search_status_values-exact_example :
    (wanted : List String) × (search_status_values two_statuses ≡ asked_for wanted)
    × IsDistinct wanted
    × ((s : String)
        → is_member s wanted
          ≡ (is_member s (given two_statuses.status two_statuses.statuses) && not (str_eq s "")))
search_status_values-exact_example = search_status_values-exact two_statuses

kite_page_returns :
    list_via_provider_search services 7 "kite" none 5 no_filters []
    ≡ ok (show_page services 7 "kite" no_filters [] (sim ∷ [], none))
unfolding list_via_provider_search provider_page
kite_page_returns = refl

list_via_provider_search-exact_example :
    (page : Page) × (provider_page services 7 "kite" none 5 no_filters ≡ ok page)
    × Shows services 7 "kite" no_filters page
        (show_page services 7 "kite" no_filters [] (sim ∷ [], none))
list_via_provider_search-exact_example =
    list_via_provider_search-exact services 7 "kite" none 5 no_filters []
      (show_page services 7 "kite" no_filters [] (sim ∷ [], none)).0
      (show_page services 7 "kite" no_filters [] (sim ∷ [], none)).1 tt kite_page_returns

abbrev by_iccid : SearchFilters
by_iccid = record no_filters { iccid = some "89-34" }

abbrev iccid_page : SimListOut
iccid_page = returned (list_global_iccid_search services 7 [] by_iccid []).0

iccid_unknown : find_any services 7 [] (route_iccid ascii "89-34") [] ≡ ok none
unfolding find_any find_routing find_prefix_routing routing_prefix route_iccid normalize_iccid strip
    count is_route scalar_one_or_none
iccid_unknown = refl

iccid_page_returns : (list_global_iccid_search services 7 [] by_iccid []).0 ≡ ok iccid_page
unfolding list_global_iccid_search find_any ask_all prepare_lookup prepare_lookups merge_lookup
    find_routing find_prefix_routing routing_prefix route_iccid normalize_iccid strip count is_route
    scalar_one_or_none value
iccid_page_returns = refl

abbrev kite_request : SearchRequest
kite_request = record {
  cursor = none;
  limit = 5;
  common = no_filters;
  providers = (kite, two_statuses) ∷ [];
}

abbrev search_page : SimListOut
search_page = returned (search_via_provider_filters services 7 kite_request []).0

search_returns : (search_via_provider_filters services 7 kite_request []).0 ≡ ok search_page
unfolding search_via_provider_filters prepare_searches prepare_search prepare_statuses selected
    skip_unselected value decode_global_cursor decode_status_cursor decode_cursor
    search_status_values dedupe is_member
search_returns = refl

one_sim_named : (limit : ℕ) → AllOf "kite" (if ltb 0 limit then sim ∷ [] else [])
one_sim_named limit = elim (Bool-cases (ltb 0 limit)) [
  | inl asked ↦ rw asked (refl, tt)
  | inr none_asked ↦ rw none_asked tt
]

kite_named : NamesSims "kite" kite_adapter
kite_named creds cursor limit filters page answer =
    subst (λ (answered : Page). AllOf "kite" answered.0) (ok-injective page answer)
      (one_sim_named limit)

-- the registry of the tests has Kite alone
all_named : AllNameSims services
all_named name adapter found = elim (Bool-cases (str_eq name "kite")) [
  | inl is_kite ↦
      subst (NamesSims name) (ok-injective adapter (rw is_kite at found)) (
        subst (λ n. NamesSims n kite_adapter) (sym ((str_eq_iff name "kite").0 is_kite)) kite_named)
  | inr is_other ↦ cc (rw is_other at found)
]

search-IsFound_example :
    IsShownOnce plain_python search_key search_page.items
    × All
        (IsFound ascii 7 (search_via_provider_filters services 7 kite_request []).1)
        search_page.items
search-IsFound_example =
    search-IsFound services 7 kite_request all_named [] search_page tt search_returns

abbrev credential : CredentialRow
credential = record { company_id = 7; provider = "kite"; active = true }

abbrev admin_page : SimListOut
admin_page = returned (list_via_admin_credentials services (credential ∷ []) none 5 no_filters none)

admin_returns :
    list_via_admin_credentials services (credential ∷ []) none 5 no_filters none ≡ ok admin_page
unfolding list_via_admin_credentials active_admin_credential_rows order_rows insert_row prepare_rows
    prepare_row decode_admin_cursor
admin_returns = refl

list_via_admin_credentials-Once_example :
    IsShownOnce plain_python (item_key services) admin_page.items
list_via_admin_credentials-Once_example =
    list_via_admin_credentials-Once services all_named (credential ∷ []) none 5 no_filters none
      admin_page admin_returns
