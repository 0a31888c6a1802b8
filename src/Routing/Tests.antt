-- ===== src/Routing/Tests.antt =====
-- The routing of ICCIDs on concrete texts and tables.
use app_suscriptions_back.Prelude.{
  ℕ, ◌≡◌, ◌≤◌, refl, true, Option, none, some, [], ◌∷◌, length, ◌⊎◌, arith, if◌then◌else◌, ◌==◌,
  str_eq,
}
use app_suscriptions_back.Errors.{ok, err, other, cancelled}
use app_suscriptions_back.Database.{scalar_one_or_none}
use app_suscriptions_back.Domain.{Subscription, end, no_filters, value, Adapter}
use app_suscriptions_back.Routing.Resolve.{
  Request, setup, provider_calls, answer, answers, absorb_subs, absorb_answers, discover, conclude,
  discover_or_miss, resolve_routing_or_discover, unresolved,
}
use app_suscriptions_back.Routing.Resolve.Outcome.{
  IsFor, resolve_isolates, resolve_ends, resolve_after_miss,
}
use app_suscriptions_back.Routing.Text.{
  ascii, normalize_iccid, strip, strip_left, strip_right, count, take, route_iccid, routing_prefix,
}
use app_suscriptions_back.Routing.Table.{
  Route, HasKey, owner, owned_by, upsert, is_route, find_prefix_routing, upsert_routing,
  find_routing, find_routing-eq-owner, find-upsert_routing,
}
use app_suscriptions_back.Routing.NegativeCache.{
  Cache, get, key_eq, max_entries, hit, record_miss, IsUnique, record_miss_bounded,
}

route_reduces : route_iccid ascii "89-34 56" ≡ "893456"
unfolding route_iccid normalize_iccid
route_reduces = refl

route_strips : route_iccid ascii "  no " ≡ "no"
unfolding route_iccid normalize_iccid strip strip_left strip_right
route_strips = refl

prefix_short : routing_prefix ascii "89-345" ≡ none
unfolding routing_prefix normalize_iccid count
prefix_short = refl

prefix_long : routing_prefix ascii "89-345678" ≡ some "893456"
unfolding routing_prefix normalize_iccid count take
prefix_long = refl

abbrev row : Route
row = record { iccid = "8934"; provider = "kite"; company_id = 7; last_seen_at = 3 }

table-HasKey : HasKey (row ∷ [])
unfolding owner
table-HasKey = (refl, tt)

find_routing-eq-owner_example :
    find_routing ascii "89-34" 8 (row ∷ [])
    ≡ ok (owned_by 8 (owner (route_iccid ascii "89-34") (row ∷ [])))
find_routing-eq-owner_example = find_routing-eq-owner ascii "89-34" 8 (row ∷ []) table-HasKey

find-upsert_routing_example :
    HasKey (upsert_routing ascii 9 "89-34" "tele2" 8 (row ∷ []))
    × (find_routing ascii "8935" 7 (upsert_routing ascii 9 "89-34" "tele2" 8 (row ∷ [])) ≡ (
        if str_eq (route_iccid ascii "89-34") (route_iccid ascii "8935")
        then (if 8 == 7
            then ok (
                some (record {
                  iccid = route_iccid ascii "89-34";
                  provider = "tele2";
                  company_id = 8;
                  last_seen_at = 9;
                }))
            else ok none)
        else find_routing ascii "8935" 7 (row ∷ [])))
find-upsert_routing_example =
    find-upsert_routing ascii 9 "89-34" "tele2" 8 "8935" 7 (row ∷ []) table-HasKey

abbrev misses : Cache
misses = ((7, "8934"), 20) ∷ ((8, "8934"), 30) ∷ []

misses-IsUnique : IsUnique misses
unfolding get key_eq
misses-IsUnique = (refl, (refl, tt))

record_miss_bounded_example : length (record_miss 5 (7, "8935") misses) ≤ max_entries
record_miss_bounded_example = record_miss_bounded 5 (7, "8935") misses (omega arith)

-- A request of company 7 whose only provider is kite, which knows one SIM.
abbrev sim : Subscription
sim = record {
  iccid = "8934";
  msisdn = none;
  imsi = none;
  status = "active";
  provider = "kite";
  company_id = 7;
  activated_at = none;
  updated_at = none;
  provider_fields = end;
}

abbrev kite_adapter : Adapter ℕ
kite_adapter = record {
  searchable = true;
  supports_list_filter = λ f. str_eq f "iccid";
  bootstrap_filters = no_filters;
  list_subscriptions = λ creds cursor limit filters. ok (sim ∷ [], none);
}

abbrev request : Request ℕ
request = record {
  registry = λ name. if str_eq name "kite" then ok kite_adapter else err (other "KeyError");
  load_credentials = λ name. ok 1;
  db_now = 9;
  checked_at = 4;
  recorded_at = 5;
}

abbrev discovered : Route
discovered = record { iccid = "8934"; provider = "kite"; company_id = 7; last_seen_at = 9 }

resolve_discovers :
    (resolve_routing_or_discover ascii request [] "89-34" 7 [] []).0 ≡ ok (discovered, some sim)
unfolding resolve_routing_or_discover find_routing route_iccid normalize_iccid strip
    find_prefix_routing routing_prefix discover_or_miss hit get discover provider_calls setup value
    answers answer absorb_answers absorb_subs upsert_routing upsert conclude is_route
    scalar_one_or_none count
resolve_discovers = refl

resolve_isolates_example : IsFor ascii "89-34" 7 discovered
resolve_isolates_example =
    resolve_isolates ascii request "89-34" 7 [] [] [] discovered (some sim) resolve_discovers

resolve_ends_example :
    ((resolve_routing_or_discover ascii request [] "89-35" 7 (row ∷ []) []).0
      ≡ unresolved (route_iccid ascii "89-35"))
    ⊎ ((resolve_routing_or_discover ascii request [] "89-35" 7 (row ∷ []) []).0 ≡ err cancelled)
    ⊎ ((found : Route × Option Subscription) × ((resolve_routing_or_discover ascii request []
            "89-35" 7
            (row ∷ [])
            []).0
          ≡ ok found))
resolve_ends_example =
    resolve_ends ascii request "89-35" 7 [] (row ∷ []) [] table-HasKey (λ p. omega arith)

row_is_no_route : find_routing ascii (route_iccid ascii "89-35") 7 (row ∷ []) ≡ ok none
unfolding find_routing route_iccid normalize_iccid strip is_route scalar_one_or_none
row_is_no_route = refl

no_prefix_row : find_prefix_routing ascii (route_iccid ascii "89-35") 7 [] ≡ ok none
unfolding find_prefix_routing routing_prefix route_iccid normalize_iccid strip count
no_prefix_row = refl

resolve_after_miss_example :
    resolve_routing_or_discover ascii request [] "89-35" 7
      (row ∷ [])
      (record_miss 3 (7, route_iccid ascii "89-35") misses)
    ≡ (
      unresolved (route_iccid ascii "89-35"),
      row ∷ [],
      record_miss 3 (7, route_iccid ascii "89-35") misses,
    )
resolve_after_miss_example =
    resolve_after_miss ascii request "89-35" 7 [] (row ∷ []) misses 3 row_is_no_route no_prefix_row
      (omega arith)
