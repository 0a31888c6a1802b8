-- ===== src/Errors.antt =====
-- app/shared/errors.py: the domain errors, and the exceptions that calls may raise.
-- app/main.py: the handlers that turn an exception into a Problem Details response.
use text.Mathlib.Text.{◌==◌ as str_eq}
use app_suscriptions_back.Prelude.{
  ℕ, String, ◌≡◌, refl, ◌⊎◌, inl, inr, Option, none, some, List, [], ◌∷◌, if◌then◌else◌,
}

-- One constructor for each concrete class below `DomainError`.
pub data Kind : Type 0 where
  subscription_not_found invalid_iccid partial_result listing_precondition_failed : Kind
  provider_unavailable provider_rate_limited provider_auth_failed provider_protocol_error : Kind
  provider_resource_not_found provider_validation_error provider_forbidden : Kind
  unsupported_operation configuration_error credentials_missing forbidden_operation : Kind
  idempotency_key_required batch_too_large sync_already_running job_not_found : Kind

unfoldable pub code : Kind → String
code subscription_not_found = "subscription.not_found"
code invalid_iccid = "subscription.invalid_iccid"
code partial_result = "subscription.partial_result"
code listing_precondition_failed = "subscription.listing_precondition_failed"
code provider_unavailable = "provider.unavailable"
code provider_rate_limited = "provider.rate_limited"
code provider_auth_failed = "provider.auth_failed"
code provider_protocol_error = "provider.protocol_error"
code provider_resource_not_found = "provider.resource_not_found"
code provider_validation_error = "provider.validation_error"
code provider_forbidden = "provider.forbidden"
code unsupported_operation = "provider.unsupported_operation"
code configuration_error = "config.invalid"
code credentials_missing = "tenant.credentials_missing"
code forbidden_operation = "auth.forbidden"
code idempotency_key_required = "request.idempotency_key_required"
code batch_too_large = "request.batch_too_large"
code sync_already_running = "sync.already_running"
code job_not_found = "job.not_found"

unfoldable pub http_status : Kind → ℕ
http_status subscription_not_found = 404
http_status invalid_iccid = 400
http_status partial_result = 207
http_status listing_precondition_failed = 412
http_status provider_unavailable = 503
http_status provider_rate_limited = 429
http_status provider_auth_failed = 502
http_status provider_protocol_error = 502
http_status provider_resource_not_found = 404
http_status provider_validation_error = 422
http_status provider_forbidden = 403
http_status unsupported_operation = 409
http_status configuration_error = 500
http_status credentials_missing = 412
http_status forbidden_operation = 403
http_status idempotency_key_required = 400
http_status batch_too_large = 413
http_status sync_already_running = 409
http_status job_not_found = 404

unfoldable pub title : Kind → String
title subscription_not_found = "Subscription not found"
title invalid_iccid = "Invalid ICCID format"
title partial_result = "Partial result — some providers failed"
title listing_precondition_failed = "Listing precondition failed"
title provider_unavailable = "Provider temporarily unavailable"
title provider_rate_limited = "Provider rate limit reached"
title provider_auth_failed = "Provider authentication failed"
title provider_protocol_error = "Unexpected response from provider"
title provider_resource_not_found = "Resource not found on provider"
title provider_validation_error = "Provider validation error"
title provider_forbidden = "Provider forbidden"
title unsupported_operation = "Operation not supported by this provider"
title configuration_error = "Server configuration error"
title credentials_missing = "No active provider credentials for this company"
title forbidden_operation = "Insufficient permissions for this operation"
title idempotency_key_required = "Idempotency-Key header is required for this operation"
title batch_too_large = "Batch size exceeds the limit"
title sync_already_running = "A sync job for this provider is already pending or running"
title job_not_found = "Job not found"

-- A value of the `extra` dict. Numbers that the source renders by `str` stay numbers here.
pub data ExtraValue : Type 0 where
  string : String → ExtraValue
  number : ℕ → ExtraValue

abbrev pub Extra : Type 0
Extra = List (String × ExtraValue)

pub record DomainError : Type 0 where
  pub kind : Kind
  pub detail : Option String
  pub extra : Extra

-- What a call may raise. `http` is FastAPI's HTTPException; `cancelled` is the CancelledError of
-- asyncio, which `except Exception` does not catch.
pub data Exception : Type 0 where
  domain : DomainError → Exception
  http : ℕ → String → Exception
  timeout : Exception
  other : String → Exception
  cancelled : Exception

pub data Result {ℓ} (A : Type ℓ) : Type ℓ where
  ok : A → Result A
  err : Exception → Result A

pub Result-cases {ℓ} :
    {A : Type ℓ} (r : Result A) → ((e : Exception) × (r ≡ err e)) ⊎ ((a : A) × (r ≡ ok a))
Result-cases (ok a) = inr (a, refl)
Result-cases (err e) = inl (e, refl)

-- The result of a call, passed on to what follows it.
infixl 5 ◌>>=◌
abbrev pub ◌>>=◌ {ℓ κ} : {A : Type ℓ} {B : Type κ} → Result A → (A → Result B) → Result B
err e >>= after = err e
ok value >>= after = after value

-- `raise K(detail=d)`
abbrev pub raise {ℓ} : {A : Type ℓ} → Kind → String → Result A
raise k d = err (domain (record { kind = k; detail = some d; extra = [] }))

-- `extra.get(key)`
unfoldable pub get_extra : String → Extra → Option ExtraValue
get_extra key [] = none
get_extra key ((k, v) ∷ rest) = if str_eq k key then some v else get_extra key rest

-- The response of the exception handlers: the status, the `Retry-After` header, the fields `code`,
-- `title` and `detail` of the body, and its further fields, which win over those of the same name.
pub record Problem : Type 0 where
  pub status : ℕ
  pub retry_after : Option ExtraValue
  pub problem_code : String
  pub problem_title : String
  pub problem_detail : Option String
  pub further : Extra

pub domain_error_handler : DomainError → Problem
unfolding code http_status title get_extra
domain_error_handler e = record {
  status = http_status e.kind;
  retry_after = get_extra "retry_after" e.extra;
  problem_code = code e.kind;
  problem_title = title e.kind;
  problem_detail = e.detail;
  further = e.extra;
}

pub unhandled_exception_handler : Problem
unhandled_exception_handler = record {
  status = 500;
  retry_after = none;
  problem_code = "internal_error";
  problem_title = "Internal server error";
  problem_detail = none;
  further = [];
}
