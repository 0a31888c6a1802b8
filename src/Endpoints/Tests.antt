-- ===== src/Endpoints/Tests.antt =====
-- The endpoints on the company of Listing/Fixtures.
use app_suscriptions_back.Prelude.{ℕ, List, All, ◌≡◌, refl, none, some, [], ◌∷◌}
use app_suscriptions_back.Errors.{Result, ok, err}
use app_suscriptions_back.Domain.{kite, SearchFilters}
use app_suscriptions_back.Database.{scalar_one_or_none}
use app_suscriptions_back.Filters.Query.{
  dedupe, is_member, parse_query_dt, parse_custom_filters, parse_optional_bool_query,
}
use app_suscriptions_back.Routing.Text.{route_iccid, normalize_iccid}
use app_suscriptions_back.Routing.Table.{Route, find_routing, is_route}
use app_suscriptions_back.Routing.Resolve.{Request, resolve_routing_or_discover}
use app_suscriptions_back.Listing.Fixtures.{services}
use app_suscriptions_back.Stats.{collect_provider_stats, collect_stats, count_pages}
use app_suscriptions_back.Endpoints.{SimQuery, stats_filters, ImportItem, store_items}
use app_suscriptions_back.Endpoints.Imported.{store_items-finds}
use app_suscriptions_back.Endpoints.Statistics.{
  SimStatsOut, get_sim_stats, tally_providers, stats_out, no_tally,
}
use app_suscriptions_back.Endpoints.Balanced.{IsExact, get_sim_stats-IsHonest}
use app_suscriptions_back.Endpoints.Details.{
  Batch, DetailsOut, get_sim_details_batch, details_of, resolve_batch, place_result, fetch_all,
  fetch_one, no_summary,
}
use app_suscriptions_back.Endpoints.Details.Partition.{IsComplete, get_sim_details_batch-IsComplete}

abbrev request : Request ℕ
request = record {
  registry = services.registry;
  load_credentials = λ name. ok 1;
  db_now = 9;
  checked_at = 4;
  recorded_at = 5;
}

abbrev row : Route
row = record { iccid = "8934"; provider = "kite"; company_id = 7; last_seen_at = 3 }

-- the answer for a SIM that is sent twice
abbrev details : Result (Batch × DetailsOut)
details =
    get_sim_details_batch services (λ iccid. request) (λ e. "") [] 7 50 (λ n. "")
      ("8934" ∷ "8934" ∷ []) [] (row ∷ []) []

-- the value of a call that returns
abbrev answer : Result (Batch × DetailsOut) → Batch × DetailsOut
answer (ok found) = found
answer (err e) = (
  record { unresolved = []; filtered_out = []; resolved = []; table = []; cache = [] },
  record { results = []; summary = no_summary 0; unresolved = []; filtered_out = [] },
)

details_returns : details ≡ ok ((answer details).0, (answer details).1)
unfolding get_sim_details_batch details_of dedupe is_member resolve_batch place_result fetch_all
    fetch_one resolve_routing_or_discover find_routing route_iccid normalize_iccid is_route
    scalar_one_or_none
details_returns = refl

get_sim_details_batch-IsComplete_example :
    IsComplete services
      (λ iccid. request)
      (λ e. "")
      []
      7
      (dedupe [] ("8934" ∷ "8934" ∷ []))
      (answer details).1
get_sim_details_batch-IsComplete_example =
    get_sim_details_batch-IsComplete services (λ iccid. request) (λ e. "") [] 7 50 (λ n. "")
      ("8934" ∷ "8934" ∷ []) [] (row ∷ []) [] (answer details).0 (answer details).1 details_returns

abbrev no_query : SimQuery
no_query = record {
  status = none;
  modified_since = none;
  modified_till = none;
  iccid = none;
  imsi = none;
  msisdn = none;
  imei = none;
  operator = none;
  data_service = none;
  sms_service = none;
  last_lu_since = none;
  last_lu_till = none;
  imsi_list = none;
  custom = [];
}

abbrev kite_stats : Result SimStatsOut
kite_stats = get_sim_stats services (λ s. none) 0 (some kite) no_query 7

abbrev stats_answer : Result SimStatsOut → SimStatsOut
stats_answer (ok out) = out
stats_answer (err e) = stats_out none no_tally

stats_return : kite_stats ≡ ok (stats_answer kite_stats)
unfolding get_sim_stats stats_filters parse_query_dt parse_custom_filters parse_optional_bool_query
    tally_providers collect_provider_stats collect_stats count_pages
stats_return = refl

get_sim_stats-IsHonest_example :
    (filters : SearchFilters) × (stats_filters services.python (λ s. none) no_query ≡ ok filters)
    × IsExact services (λ s. none) 0 filters (some kite) 7 (stats_answer kite_stats)
get_sim_stats-IsHonest_example =
    get_sim_stats-IsHonest services (λ s. none) 0 (some kite) no_query 7 (stats_answer kite_stats)
      stats_return

-- the SIM of the tests, imported twice in two spellings
abbrev imported : List ImportItem
imported =
    record { iccid = "89-34"; provider = "kite" }
    ∷ record { iccid = "8934"; provider = "tele2" }
    ∷ []

store_items-finds_example :
    All
      (λ item.
        (r : Route) × (find_routing services.python.unicode item.iccid 7
            (store_items services 7 imported [])
          ≡ ok (some r))
        × (r.company_id ≡ 7))
      imported
store_items-finds_example = store_items-finds services 7 imported [] tt
