-- ===== src/Lifecycle/Retry.antt =====
-- What one write of sims.py leaves behind, and what a retry with the same idempotency key does.
use app_suscriptions_back.Prelude.{
  ◌≡◌, refl, true, false, List, [], ◌∷◌, ◌++◌, arith, if◌then◌else◌, str_eq_refl, ==_iff,
}
use app_suscriptions_back.Errors.{
  Exception, domain, http, timeout, other, cancelled, Result, ok, err,
}
use app_suscriptions_back.Routing.Text.{Unicode}
use app_suscriptions_back.Routing.Table.{Route, Table}
use app_suscriptions_back.Lifecycle.{
  IdempotencyKey, Audit, success, error, replayed, World, WriteAdapter, WriteRequest, claim,
  release, send,
}
use app_suscriptions_back.Lifecycle.Change.{
  audit_row, error_row, conclude_call, perform, claimed_change, routed_change, resolve_routing,
  change,
}
use app_suscriptions_back.Lifecycle.Keys.{
  is_held, is_held-claim, is_held-mark_processed, release-claim,
}
use app_suscriptions_back.Lifecycle.Once.{is_effective}

module _ {Creds : Type 0} (q : WriteRequest Creds) where
  -- What a call with this result leaves of the world `w`.
  pub record IsCalled (result : Result (Unit {0})) (w : World) (answer : Result (Unit {0}))
      (w' : World) : Type 0 where
    pub answered : answer ≡ result
    pub sent :
        w'.sent ≡ w.sent ++ record { company_id = q.company_id; key = q.key; result = result } ∷ []
    pub row : Audit
    pub audit : w'.audit ≡ w.audit ++ row ∷ []
    pub outcome : row.outcome ≡ (if is_effective result then success else error)
    pub held : is_held q.key q.company_id w'.keys ≡ is_effective result

  held_after_claim :
      (w : World) → is_held q.key q.company_id (claim q.now q.key q.company_id w.keys).1 ≡ true
  held_after_claim w = ground (
    arith,
    is_held-claim q.key q.company_id q.key q.company_id q.now w.keys,
    str_eq_refl q.key,
    ==_iff q.company_id q.company_id,
  )

  free_after_release :
      (w : World)
      → is_held q.key q.company_id w.keys ≡ false
      → is_held q.key q.company_id
          (release q.key q.company_id (claim q.now q.key q.company_id w.keys).1)
        ≡ false
  free_after_release w free = rw (release-claim q.now q.key q.company_id w.keys free) free

  conclude_call-IsCalled :
      (r : Route) (result : Result (Unit {0})) (w : World)
      → is_held q.key q.company_id w.keys ≡ false
      → IsCalled result w
          (conclude_call q r result (record w {
            keys = (claim q.now q.key q.company_id w.keys).1;
            sent =
                w.sent ++ record { company_id = q.company_id; key = q.key; result = result } ∷ [];
          })).0
          (conclude_call q r result (record w {
            keys = (claim q.now q.key q.company_id w.keys).1;
            sent =
                w.sent ++ record { company_id = q.company_id; key = q.key; result = result } ∷ [];
          })).1
  unfolding conclude_call
  conclude_call-IsCalled r (ok tt) w free = record {
    answered = refl;
    sent = refl;
    row = audit_row q r success;
    audit = refl;
    outcome = refl;
    held =
        rw
          (is_held-mark_processed q.key q.company_id q.key q.company_id
            (claim q.now q.key q.company_id w.keys).1)
          (held_after_claim w);
  }
  conclude_call-IsCalled r (err cancelled) w free = record {
    answered = refl;
    sent = refl;
    row = audit_row q r success;
    audit = refl;
    outcome = refl;
    held = held_after_claim w;
  }
  conclude_call-IsCalled r (err timeout) w free = record {
    answered = refl;
    sent = refl;
    row = error_row q r timeout;
    audit = refl;
    outcome = refl;
    held = free_after_release w free;
  }
  conclude_call-IsCalled r (err (domain e)) w free = record {
    answered = refl;
    sent = refl;
    row = error_row q r (domain e);
    audit = refl;
    outcome = refl;
    held = free_after_release w free;
  }
  conclude_call-IsCalled r (err (http s d)) w free = record {
    answered = refl;
    sent = refl;
    row = error_row q r (http s d);
    audit = refl;
    outcome = refl;
    held = free_after_release w free;
  }
  conclude_call-IsCalled r (err (other s)) w free = record {
    answered = refl;
    sent = refl;
    row = error_row q r (other s);
    audit = refl;
    outcome = refl;
    held = free_after_release w free;
  }

  claim_free :
      (keys : List IdempotencyKey)
      → is_held q.key q.company_id keys ≡ false
      → (claim q.now q.key q.company_id keys).0 ≡ true
  unfolding claim
  claim_free keys free = rw free refl

  change_call :
      (u : Unicode) (table : Table) (w : World) (r : Route) (creds : Creds)
      (adapter : WriteAdapter Creds)
      → resolve_routing u q.iccid q.company_id table ≡ ok r
      → is_held q.key q.company_id w.keys ≡ false
      → q.load_credentials r.provider ≡ ok creds
      → q.registry r.provider ≡ ok adapter
      → change u q table w
        ≡ perform q r adapter creds (record w { keys = (claim q.now q.key q.company_id w.keys).1 })
  unfolding change routed_change claimed_change
  change_call u table w r creds adapter routed free loaded found =
      rw (routed, claim_free w.keys free, loaded, found, change, claimed_change) refl

  change_raises :
      (u : Unicode) (table : Table) (w : World) (r : Route) (e : Exception)
      → resolve_routing u q.iccid q.company_id table ≡ ok r
      → is_held q.key q.company_id w.keys ≡ false
      → q.load_credentials r.provider ≡ err e
      → change u q table w ≡ (err e, record w { keys = (claim q.now q.key q.company_id w.keys).1 })
  unfolding change routed_change claimed_change
  change_raises u table w r e routed free missing =
      rw (routed, claim_free w.keys free, missing, change, claimed_change) refl

  change_replays :
      (u : Unicode) (table : Table) (w : World) (r : Route)
      → resolve_routing u q.iccid q.company_id table ≡ ok r
      → is_held q.key q.company_id w.keys ≡ true
      → change u q table w ≡ (ok tt, record w { audit = w.audit ++ audit_row q r replayed ∷ [] })
  unfolding change routed_change claim
  change_replays u table w r routed held = rw (routed, held, change) refl

  -- A write whose key is free, and whose route, credentials and adapter are there, calls the provider
  -- once and answers as the call did. It audits one row, which says error if the call raised and
  -- success if it returned; it says success also if the call was cancelled. The key is free again
  -- after a call that raised, and held after one that returned or was cancelled.
  pub change-IsCalled :
      (u : Unicode) (table : Table) (w : World) (r : Route) (creds : Creds)
      (adapter : WriteAdapter Creds)
      → resolve_routing u q.iccid q.company_id table ≡ ok r
      → is_held q.key q.company_id w.keys ≡ false
      → q.load_credentials r.provider ≡ ok creds
      → q.registry r.provider ≡ ok adapter
      → IsCalled
          (send adapter q.write r.iccid creds q.key)
          w
          (change u q table w).0
          (change u q table w).1
  unfolding perform
  change-IsCalled u table w r creds adapter routed free loaded found =
      let called = conclude_call-IsCalled r (send adapter q.write r.iccid creds q.key) w free in
      rw (change_call u table w r creds adapter routed free loaded found) called

-- A write with a free key whose credentials cannot be loaded raises that error, and leaves the key
-- held: a retry with the key for the same SIM, on the same routing table but at any time and with any
-- adapter, returns as if it had worked, calls no provider, and audits a replay.
pub retry_swallowed :
    {Creds : Type 0} (u : Unicode) (q later : WriteRequest Creds) (table : Table) (w : World)
    (r : Route) (e : Exception)
    → resolve_routing u q.iccid q.company_id table ≡ ok r
    → is_held q.key q.company_id w.keys ≡ false
    → q.load_credentials r.provider ≡ err e
    → later.key ≡ q.key
    → later.company_id ≡ q.company_id
    → later.iccid ≡ q.iccid
    → ((change u q table w).0 ≡ err e)
      × (change u later table (change u q table w).1 ≡ (
        ok tt,
        record ((change u q table w).1) { audit = w.audit ++ audit_row later r replayed ∷ [] },
      ))
retry_swallowed u q later table w r e routed free missing same_key same_company same_iccid =
    let first = change_raises q u table w r e routed free missing in
    let again : resolve_routing u later.iccid later.company_id table ≡ ok r =
      rw (same_iccid, same_company) routed in
    let held : is_held later.key later.company_id (claim q.now q.key q.company_id w.keys).1 ≡ true =
      rw (same_key, same_company) (held_after_claim q w) in
    rw first (
      refl,
      change_replays later u table (record w { keys = (claim q.now q.key q.company_id w.keys).1 }) r
          again held,
    )
