-- ===== src/Listing/Fixtures.antt =====
-- A company with one SIM at one provider, for the tests.
use app_suscriptions_back.Prelude.{ℕ, true, false, none, some, [], ◌∷◌, ltb, if◌then◌else◌, str_eq}
use app_suscriptions_back.Errors.{Result, ok, err, other}
use app_suscriptions_back.Domain.{Subscription, Adapter, end, no_filters, string}
use app_suscriptions_back.Cursors.{Codec}
use app_suscriptions_back.Normalization.{Python}
use app_suscriptions_back.Routing.Text.{ascii}
use app_suscriptions_back.Listing.{SimListOut, Services}

-- A library whose letters have one case and whose dates are never read.
abbrev pub plain_python : Python
plain_python = record {
  unicode = ascii;
  text_of = λ v. elim v [ string s ↦ s | _ ↦ "" ];
  lower = λ s. s;
  upper = λ s. s;
  title = λ s. s;
  from_iso = λ s. none;
  to_iso = λ n. "";
  id_text = λ n. "";
  is_digits = λ s. false;
  fault = λ s. none;
}

abbrev pub empty_codec : Codec
empty_codec = record {
  dumps = λ d. "";
  loads = λ s. none;
  b64encode = λ s. s;
  b64decode = λ s. some s;
  text_of = λ v. elim v [ string s ↦ s | _ ↦ "" ];
}

abbrev pub sim : Subscription
sim = record {
  iccid = "8934";
  msisdn = none;
  imsi = none;
  status = "ACTIVE";
  provider = "kite";
  company_id = 7;
  activated_at = none;
  updated_at = none;
  provider_fields = end;
}

abbrev pub kite_adapter : Adapter ℕ
kite_adapter = record {
  searchable = true;
  supports_list_filter = λ f. str_eq f "iccid";
  bootstrap_filters = no_filters;
  list_subscriptions =
      λ creds cursor limit filters. ok (if ltb 0 limit then sim ∷ [] else [], none);
}

-- Kite answers; nothing is known of the other providers.
abbrev pub services : Services ℕ
services = record {
  python = plain_python;
  codec = empty_codec;
  registry = λ name. if str_eq name "kite" then ok kite_adapter else err (other "KeyError");
  load_credentials = λ company name. ok 1;
  get_subscription = λ name iccid creds. ok sim;
  db_now = 9;
  upsert_fault = λ s. none;
}

-- the value of a call that returns
abbrev pub returned : Result SimListOut → SimListOut
returned (ok out) = out
returned (err e) = record {
  items = [];
  next_cursor = none;
  total = none;
  is_partial = false;
  failed_providers = [];
  provider_statuses = [];
}
