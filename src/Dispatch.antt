-- ===== src/Dispatch.antt =====
-- app/subscriptions/services/provider_dispatch.py: the split of a page over several calls, and what
-- the services answer for a provider that failed.
use app_suscriptions_back.Prelude.{
  ℕ, zero, suc, ◌+◌, ◌*◌, ◌/◌, ◌%◌, String, Bool, true, false, not, ◌&&◌, Option, none, some, List,
  [], ◌∷◌, ltb, if◌then◌else◌,
}
use app_suscriptions_back.Errors.{Exception, domain, code as error_code, title as error_title}
use app_suscriptions_back.Domain.{SearchFilters, is_set, is_text, is_nonempty}
pub mod Limits

-- `[base + (1 if index < remainder else 0) for index in range(index, index + n)]`
unfoldable pub limits_from : ℕ → ℕ → ℕ → ℕ → List ℕ
limits_from base remainder index zero = []
limits_from base remainder index (suc n) =
    (if ltb index remainder then base + 1 else base) ∷ limits_from base remainder (suc index) n

-- `_global_provider_call_limits`. A count is never negative.
unfoldable pub call_limits : ℕ → ℕ → List ℕ
unfolding limits_from
call_limits page_limit zero = []
call_limits page_limit (suc n) = limits_from (page_limit / suc n) (page_limit % suc n) 0 (suc n)

-- The `status` of `ProviderStatusOut`.
pub data Outcome : Type 0 where
  answered in_part failed not_queried : Outcome

-- `ProviderStatusOut`
pub record ProviderStatus : Type 0 where
  pub provider : String
  pub status : Outcome
  pub count : ℕ
  pub code : Option String
  pub title : Option String

-- An entry of `failed_providers`.
pub record Failure : Type 0 where
  pub provider : String
  pub code : String
  pub title : String

unfoldable pub failure_code : Exception → String
unfolding error_code
failure_code (domain e) = error_code e.kind
failure_code _ = "provider.unavailable"

unfoldable pub failure_title : Exception → String
unfolding error_title
failure_title (domain e) = error_title e.kind
failure_title _ = "Provider request failed"

-- `_global_provider_failure`
unfoldable pub provider_failure : String → Exception → Failure × ProviderStatus
unfolding failure_code failure_title
provider_failure name e = (
  record { provider = name; code = failure_code e; title = failure_title e },
  record {
    provider = name;
    status = failed;
    count = 0;
    code = some (failure_code e);
    title = some (failure_title e);
  },
)

-- a status without code and title
abbrev pub plain_status : String → Outcome → ℕ → ProviderStatus
plain_status name outcome n = record {
  provider = name;
  status = outcome;
  count = n;
  code = none;
  title = none;
}

-- `_is_global_iccid_search`
unfoldable pub is_global_iccid_search : SearchFilters → Bool
is_global_iccid_search f =
    is_text f.iccid
    && not (is_set f.status)
    && not (is_set f.modified_since)
    && not (is_set f.modified_till)
    && not (is_text f.imsi)
    && not (is_text f.msisdn)
    && not (is_nonempty f.custom)
