-- ===== src/Endpoints/Details.antt =====
-- `get_sim_details_batch`: the details of many SIMs at once. The answers of the providers are
-- gathered; how many calls run at a time does not change them.
use Prim.Native.String.{◌++◌ as append}
use app_suscriptions_back.Prelude.{
  ℕ, ◌+◌, String, Bool, true, false, not, ◌&&◌, Option, none, some, List, [], ◌∷◌, ◌++◌, map,
  length, any, ltb, str_eq, if◌then◌else◌,
}
use app_suscriptions_back.Errors.{
  Result, ok, err, ◌>>=◌, Exception, DomainError, domain, http, timeout, other, cancelled, Kind,
  subscription_not_found, provider_resource_not_found, provider_rate_limited, provider_unavailable,
  batch_too_large, get_extra, ExtraValue, number, code as error_code, title as error_title,
}
use app_suscriptions_back.Domain.{
  Subscription, Provider, kite, tele2, moabits, value, Adapter, is_nonempty,
}
use app_suscriptions_back.Dict.{Dict, get, has, put}
use app_suscriptions_back.Normalization.{Python}
use app_suscriptions_back.Normalization.Scalars.{SubscriptionOut}
use app_suscriptions_back.Normalization.Parts.{convert}
use app_suscriptions_back.Filters.Custom.{contains}
use app_suscriptions_back.Filters.Query.{dedupe, is_member}
use app_suscriptions_back.Routing.Table.{Route, Table, PrefixRoute}
use app_suscriptions_back.Routing.NegativeCache.{Cache}
use app_suscriptions_back.Routing.Resolve.{Request, resolve_routing_or_discover}
use app_suscriptions_back.Listing.{Services, attempt}
use app_suscriptions_back.Listing.Iccid.{routing_iccid}
pub mod Results
pub mod Placed
pub mod Partition

-- the `status` of `SimDetailsItemOut`
pub data DetailStatus : Type 0 where
  fetched not_found timed_out failed_call rate_limited : DetailStatus

-- `SimDetailsErrorOut`
pub record DetailsError : Type 0 where
  pub code : String
  pub detail : Option String
  pub retry_after : Option ExtraValue

-- `SimDetailsItemOut`
pub record DetailsItem : Type 0 where
  pub provider : String
  pub status : DetailStatus
  pub data_out : Option SubscriptionOut
  pub error : Option DetailsError

-- `SimDetailsSummaryOut`
pub record Summary : Type 0 where
  pub ok_count : ℕ
  pub not_found_count : ℕ
  pub timeout_count : ℕ
  pub rate_limited_count : ℕ
  pub error_count : ℕ
  pub total : ℕ

-- `SimDetailsOut`
pub record DetailsOut : Type 0 where
  pub results : Dict DetailsItem
  pub summary : Summary
  pub unresolved : List String
  pub filtered_out : List String

-- `exc.detail or exc.title`; an empty detail counts as none
abbrev pub detail_or_title : DomainError → String
detail_or_title e = elim e.detail [
  | none ↦ error_title e.kind
  | some d ↦ if str_eq d "" then error_title e.kind else d
]

-- the error of a domain error
abbrev pub domain_details : DomainError → DetailsError
domain_details e = record {
  code = error_code e.kind;
  detail = e.detail;
  retry_after = get_extra "retry_after" e.extra;
}

-- `_details_error_from_exception`; `lower` is str.lower and `text_of` is `str` of an exception that
-- is no domain error.
unfoldable pub details_error :
    (String → String) → (Exception → String) → Exception → DetailStatus × DetailsError
unfolding error_code error_title get_extra contains
details_error lower text_of (domain e) = elim e.kind [
  | subscription_not_found ↦ (
    not_found,
    record { code = error_code e.kind; detail = some (detail_or_title e); retry_after = none },
  )
  | provider_resource_not_found ↦ (
    not_found,
    record { code = error_code e.kind; detail = some (detail_or_title e); retry_after = none },
  )
  | provider_rate_limited ↦ (rate_limited, domain_details e)
  | provider_unavailable ↦
      if contains "timeout" (lower (detail_or_title e))
      then (timed_out, record { code = error_code e.kind; detail = e.detail; retry_after = none })
      else (failed_call, domain_details e)
  | _ ↦ (failed_call, domain_details e)
]
details_error lower text_of timeout = (
  timed_out,
  record {
    code = "provider.unavailable";
    detail = some "Provider request timed out";
    retry_after = none;
  },
)
details_error lower text_of e = (
  failed_call,
  record { code = "provider.unavailable"; detail = some (text_of e); retry_after = none },
)

-- `setattr(summary, item.status, getattr(summary, item.status) + 1)`
unfoldable pub count_status : DetailStatus → Summary → Summary
count_status fetched sum = record sum { ok_count = sum.ok_count + 1 }
count_status not_found sum = record sum { not_found_count = sum.not_found_count + 1 }
count_status timed_out sum = record sum { timeout_count = sum.timeout_count + 1 }
count_status failed_call sum = record sum { error_count = sum.error_count + 1 }
count_status rate_limited sum = record sum { rate_limited_count = sum.rate_limited_count + 1 }

unfoldable pub count_statuses : Dict DetailsItem → Summary → Summary
unfolding count_status
count_statuses [] sum = sum
count_statuses ((iccid, item) ∷ results) sum = count_statuses results (count_status item.status sum)

abbrev pub no_summary : ℕ → Summary
no_summary total = record {
  ok_count = 0;
  not_found_count = 0;
  timeout_count = 0;
  rate_limited_count = 0;
  error_count = 0;
  total = total;
}

-- a SIM that was resolved: as it was asked for, its provider, and its ICCID there
abbrev pub Resolved : Type 0
Resolved = String × String × String

-- What the resolution of the batch gives, with the table and the cache of misses as they are left.
pub record Batch : Type 0 where
  pub unresolved : List String
  pub filtered_out : List String
  pub resolved : List Resolved
  pub table : Table
  pub cache : Cache

-- `allowed_providers and routing.provider not in allowed_providers`
abbrev pub is_filtered : List String → String → Bool
is_filtered allowed name = is_nonempty allowed && not (is_member name allowed)

-- `except SubscriptionNotFound`
abbrev pub is_missing : Exception → Bool
is_missing (domain e) = elim e.kind [ subscription_not_found ↦ true | _ ↦ false ]
is_missing e = false

-- `{iccid: item for iccid, item in fetched}`
unfoldable pub collect_results : List (String × DetailsItem) → Dict DetailsItem → Dict DetailsItem
unfolding put
collect_results [] results = results
collect_results ((iccid, item) ∷ items) results = collect_results items (put iccid item results)

module _ {Creds : Type 0} (s : Services Creds) (q : String → Request Creds)
    (text_of : Exception → String) (prefixes : List PrefixRoute) (company : ℕ) where
  open s use {python, registry, load_credentials, get_subscription}

  -- what the route of a SIM adds to the batch
  abbrev pub place : List String → String → Route × Option Subscription → Batch → Batch
  place allowed iccid (route, prefetched) b =
      if is_filtered allowed route.provider
      then record b { filtered_out = b.filtered_out ++ (iccid ∷ []) }
      else record b {
        resolved =
            b.resolved
            ++ (elim prefetched [
              | some sub ↦ (iccid, sub.provider, sub.iccid)
              | none ↦ (iccid, route.provider, routing_iccid s company route iccid)
            ]
                ∷ []);
      }

  -- the answer of the resolution of one SIM; only SubscriptionNotFound is caught
  unfoldable pub place_result :
      List String → String → Result (Route × Option Subscription) → Batch → Result Batch
  place_result allowed iccid (ok found) b = ok (place allowed iccid found b)
  place_result allowed iccid (err e) b =
      if is_missing e then ok (record b { unresolved = b.unresolved ++ (iccid ∷ []) }) else err e

  -- The loop over the requested SIMs; each is resolved with its own readings of the clocks. Of an
  -- error only the error is kept here; routes that were discovered before it stay committed.
  unfoldable pub resolve_batch : List String → List String → Batch → Result Batch
  unfolding resolve_routing_or_discover place_result
  resolve_batch allowed [] b = ok b
  resolve_batch allowed (iccid ∷ iccids) b =
      let (found, table', cache') =
        resolve_routing_or_discover python.unicode (q iccid) prefixes iccid company b.table
          b.cache in
      place_result allowed iccid found (record b { table = table'; cache = cache' }) >>= λ b'.
      resolve_batch allowed iccids b'

  -- the credentials and the adapter of a provider
  abbrev pub setup_provider : String → Result (Adapter Creds × Creds)
  setup_provider name =
      load_credentials company name >>= λ creds. registry name >>= λ adapter. ok (adapter, creds)

  -- the item of an error
  abbrev pub error_item : String → Exception → DetailsItem
  error_item name e =
      let (status, error) = details_error python.lower text_of e in
      record { provider = name; status = status; data_out = none; error = some error }

  -- `_fetch_one`. The setup of a provider is done once; here it is done for each of its SIMs, with
  -- the same result.
  unfoldable pub fetch_one : Resolved → Result (String × DetailsItem)
  unfolding details_error convert
  fetch_one (iccid, name, routed) =
      attempt (setup_provider name) (λ e. ok (iccid, error_item name e))
        (λ (adapter, creds).
          attempt (get_subscription name routed creds >>= λ sub. convert python sub)
            (λ e. ok (iccid, error_item name e))
            (λ shown. ok (
              iccid,
              record { provider = name; status = fetched; data_out = some shown; error = none },
            )))

  unfoldable pub fetch_all : List Resolved → Result (List (String × DetailsItem))
  unfolding fetch_one
  fetch_all [] = ok []
  fetch_all (item ∷ items) =
      fetch_one item >>= λ got. fetch_all items >>= λ others. ok (got ∷ others)

  -- the answer for what was fetched
  unfoldable pub details_out : Batch → List (String × DetailsItem) → DetailsOut
  unfolding collect_results count_statuses
  details_out b items =
      let results = collect_results items [] in
      record {
        results = results;
        summary = count_statuses results (no_summary (length results));
        unresolved = b.unresolved;
        filtered_out = b.filtered_out;
      }

  -- the steps after the checks of the batch
  unfoldable pub details_of :
      List String → List String → Table → Cache → Result (Batch × DetailsOut)
  unfolding resolve_batch fetch_all details_out
  details_of iccids allowed table cache =
      resolve_batch allowed iccids
        (record { unresolved = []; filtered_out = []; resolved = []; table = table; cache = cache })
      >>= λ b. fetch_all b.resolved >>= λ items. ok (b, details_out b items)

  -- `get_sim_details_batch`; `too_large` writes the detail of the error
  unfoldable pub get_sim_details_batch :
      ℕ → (ℕ → String) → List String → List Provider → Table → Cache → Result (Batch × DetailsOut)
  unfolding details_of dedupe value
  get_sim_details_batch max_batch too_large iccids allowed table cache =
      if not (is_nonempty iccids)
      then err (http 400 "iccids must contain at least one item")
      else if ltb max_batch (length iccids)
      then err (
          domain (record {
            kind = batch_too_large;
            detail = some (too_large (length iccids));
            extra = ("max_batch_details", number max_batch) ∷ [];
          }))
      else details_of (dedupe [] iccids) (map value allowed) table cache
