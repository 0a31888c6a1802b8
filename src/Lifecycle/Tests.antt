-- ===== src/Lifecycle/Tests.antt =====
-- The write endpoints on concrete requests.
use app_suscriptions_back.Prelude.{ℕ, ◌≡◌, refl, none, some, [], ◌∷◌, arith}
use app_suscriptions_back.Errors.{ok, err, other}
use app_suscriptions_back.Database.{scalar_one_or_none}
use app_suscriptions_back.Identity.{Profile, admin}
use app_suscriptions_back.Routing.Text.{ascii, normalize_iccid, route_iccid, strip}
use app_suscriptions_back.Routing.Table.{Route, is_route, find_routing}
use app_suscriptions_back.Lifecycle.{
  World, WriteAdapter, WriteRequest, set_status, purge_sim, replayed,
}
use app_suscriptions_back.Lifecycle.Change.{change, resolve_routing, audit_row}
use app_suscriptions_back.Lifecycle.Once.{Asked, AtMostOnce, serve, serve-AtMostOnce}
use app_suscriptions_back.Lifecycle.Retry.{IsCalled, change-IsCalled, retry_swallowed}

abbrev empty : World
empty = record { keys = []; audit = []; sent = [] }

abbrev adapter : WriteAdapter ℕ
adapter = record {
  set_administrative_status = λ iccid creds body key. err (other "503");
  purge_call = λ iccid creds key. ok tt;
}

abbrev purge : WriteRequest ℕ
purge = record {
  write = purge_sim;
  iccid = "8934";
  key = "k";
  company_id = 7;
  actor_id = 1;
  request_id = none;
  now = 5;
  audited_at = 6;
  latency_ms = 3;
  text_of = λ e. "error";
  registry = λ name. ok adapter;
  load_credentials = λ name. ok 1;
}

abbrev activate : WriteRequest ℕ
activate = record purge {
  write = set_status (record { target = "active"; data_service = none; sms_service = none });
}

abbrev locked_out : WriteRequest ℕ
locked_out = record purge { load_credentials = λ name. err (other "CredentialsMissing") }

abbrev row : Route
row = record { iccid = "8934"; provider = "kite"; company_id = 7; last_seen_at = 3 }

routed : resolve_routing ascii "8934" 7 (row ∷ []) ≡ ok row
unfolding resolve_routing find_routing route_iccid normalize_iccid strip is_route scalar_one_or_none
routed = refl

abbrev boss : Profile
boss = record { id = 1; company_id = some 7; role = admin; full_name = none }

abbrev ask : WriteRequest ℕ → Asked ℕ
ask q = record { header = some "k"; current = boss; request = q; table = row ∷ [] }

empty-AtMostOnce : AtMostOnce empty
empty-AtMostOnce k c = omega arith

serve-AtMostOnce_example :
    AtMostOnce (serve ascii (ask activate ∷ ask purge ∷ ask purge ∷ []) empty)
serve-AtMostOnce_example =
    serve-AtMostOnce ascii (ask activate ∷ ask purge ∷ ask purge ∷ []) empty empty-AtMostOnce

change-IsCalled_example :
    IsCalled activate
      (err (other "503"))
      empty
      (change ascii activate (row ∷ []) empty).0
      (change ascii activate (row ∷ []) empty).1
change-IsCalled_example =
    change-IsCalled activate ascii (row ∷ []) empty row 1 adapter routed refl refl refl

retry_swallowed_example :
    ((change ascii locked_out (row ∷ []) empty).0 ≡ err (other "CredentialsMissing"))
    × (change ascii purge (row ∷ []) (change ascii locked_out (row ∷ []) empty).1 ≡ (
      ok tt,
      record ((change ascii locked_out (row ∷ []) empty).1) {
        audit = audit_row purge row replayed ∷ [];
      },
    ))
retry_swallowed_example =
    retry_swallowed ascii locked_out purge (row ∷ []) empty row (other "CredentialsMissing") routed
      refl refl refl refl refl
