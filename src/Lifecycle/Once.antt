-- ===== src/Lifecycle/Once.antt =====
-- The idempotency of the write endpoints of sims.py: how often a provider is called for one key.
use app_suscriptions_back.Prelude.{
  ℕ, ◌+◌, ◌≡◌, ◌≤◌, refl, Bool, true, false, ◌&&◌, Option, String, List, [], ◌∷◌, ◌++◌, length,
  filter, filter-append, length-append, arith, if◌then◌else◌, Bool-cases, inl, inr,
}
use app_suscriptions_back.Errors.{
  domain, http, timeout, other, cancelled, Result, ok, err, Result-cases,
}
use app_suscriptions_back.Identity.{Profile, admin, require_roles, get_current_company_id}
use app_suscriptions_back.Routing.Text.{Unicode}
use app_suscriptions_back.Routing.Table.{Route, Table}
use app_suscriptions_back.Lifecycle.{
  IdempotencyKey, Sent, World, WriteRequest, claim, release, send,
}
use app_suscriptions_back.Lifecycle.Change.{
  conclude_call, perform, claimed_change, routed_change, resolve_routing, change, write_sim,
  require_idempotency_key,
}
use app_suscriptions_back.Lifecycle.Keys.{
  is_held, same, is_held-same, is_held-claim, is_held-mark_processed, release-claim,
}

-- A call that the code cannot take back: it returned, or it was cancelled while it ran.
abbrev pub is_effective : Result (Unit {0}) → Bool
is_effective (ok _) = true
is_effective (err cancelled) = true
is_effective (err _) = false

abbrev pub count_effective : String → ℕ → List Sent → ℕ
count_effective k c sent =
    length (filter (λ s. same s.key s.company_id k c && is_effective s.result) sent)

-- no key without a row has an effective call, and no key has two
abbrev pub AtMostOnce : World → Type 0
AtMostOnce w =
    (k : String) (c : ℕ) → count_effective k c w.sent ≤ (if is_held k c w.keys then 1 else 0)

module _ {Creds : Type 0} (q : WriteRequest Creds) where
  abbrev sent_now : Result (Unit {0}) → Sent
  sent_now result = record { company_id = q.company_id; key = q.key; result = result }

  count_effective-append :
      (k : String) (c : ℕ) (result : Result (Unit {0})) (sent : List Sent)
      → count_effective k c (sent ++ sent_now result ∷ [])
        ≡ count_effective k c sent
          + (if same q.key q.company_id k c && is_effective result then 1 else 0)
  count_effective-append k c result sent =
      let sel : Sent → Bool = λ s. same s.key s.company_id k c && is_effective s.result in
      ground (
        arith,
        filter-append sel sent (sent_now result ∷ []),
        length-append (filter sel sent) (sent_now result ∷ []),
        length-append (filter sel sent) [],
      )

  module _ (w : World) (keys : List IdempotencyKey) (h : AtMostOnce (record w { keys = keys }))
      (free : is_held q.key q.company_id keys ≡ false) where
    -- while the key stays claimed
    kept :
        (result : Result (Unit {0})) (k : String) (c : ℕ)
        → count_effective k c (w.sent ++ sent_now result ∷ [])
          ≤ (if is_held k c (claim q.now q.key q.company_id keys).1 then 1 else 0)
    kept result k c = ground (
      arith,
      h k c,
      free,
      count_effective-append k c result w.sent,
      is_held-claim q.key q.company_id k c q.now keys,
      λ (e : same q.key q.company_id k c ≡ true). is_held-same q.key q.company_id k c keys e,
    )

    -- after a failure has released it
    released :
        (result : Result (Unit {0})) (k : String) (c : ℕ)
        → is_effective result ≡ false
        → count_effective k c (w.sent ++ sent_now result ∷ []) ≤ (
            if is_held k c (release q.key q.company_id (claim q.now q.key q.company_id keys).1)
            then 1
            else 0)
    released result k c failed =
        rw (release-claim q.now q.key q.company_id keys free)
          (ground (arith, h k c, failed, count_effective-append k c result w.sent))

  -- after the call, for a key that was just claimed
  concluded :
      (r : Route) (result : Result (Unit {0})) (w : World) (keys : List IdempotencyKey)
      → AtMostOnce (record w { keys = keys })
      → is_held q.key q.company_id keys ≡ false
      → AtMostOnce
          (conclude_call q r result (record w {
            keys = (claim q.now q.key q.company_id keys).1;
            sent = w.sent ++ sent_now result ∷ [];
          })).1
  unfolding conclude_call
  concluded r (ok tt) w keys h free k c =
      rw (is_held-mark_processed q.key q.company_id k c (claim q.now q.key q.company_id keys).1)
        (kept w keys h free (ok tt) k c)
  concluded r (err cancelled) w keys h free k c = kept w keys h free (err cancelled) k c
  concluded r (err timeout) w keys h free k c = released w keys h free (err timeout) k c refl
  concluded r (err (domain e)) w keys h free k c = released w keys h free (err (domain e)) k c refl
  concluded r (err (http s d)) w keys h free k c = released w keys h free (err (http s d)) k c refl
  concluded r (err (other s)) w keys h free k c = released w keys h free (err (other s)) k c refl

  -- a claim without a call
  unsent :
      (w : World) (keys : List IdempotencyKey)
      → AtMostOnce (record w { keys = keys })
      → AtMostOnce (record w { keys = (claim q.now q.key q.company_id keys).1 })
  unsent w keys h k c = ground (arith, h k c, is_held-claim q.key q.company_id k c q.now keys)

  claimed_change-AtMostOnce :
      (r : Route) (w : World) (keys : List IdempotencyKey)
      → AtMostOnce (record w { keys = keys })
      → is_held q.key q.company_id keys ≡ false
      → AtMostOnce
          (claimed_change q r (record w { keys = (claim q.now q.key q.company_id keys).1 })).1
  unfolding claimed_change perform
  claimed_change-AtMostOnce r w keys h free k c =
      elim (Result-cases (q.load_credentials r.provider)) [
        | inl (e, missing) ↦ rw (missing, claimed_change) (unsent w keys h k c)
        | inr (creds, loaded) ↦ elim (Result-cases (q.registry r.provider)) [
          | inl (e, missing) ↦ rw (loaded, missing, claimed_change) (unsent w keys h k c)
          | inr (adapter, found) ↦
              rw (loaded, found, claimed_change)
                (concluded r (send adapter q.write r.iccid creds q.key) w keys h free k c)
        ]
      ]

  routed_change-AtMostOnce :
      (r : Route) (w : World) → AtMostOnce w → AtMostOnce (routed_change q r w).1
  unfolding routed_change claim
  routed_change-AtMostOnce r w h = elim (Bool-cases (is_held q.key q.company_id w.keys)) [
    | inl taken ↦ rw taken h
    | inr free ↦
        let served = claimed_change-AtMostOnce r w w.keys h free in rw free (rw free at served)
  ]

change-AtMostOnce :
    {Creds : Type 0} (u : Unicode) (q : WriteRequest Creds) (table : Table) (w : World)
    → AtMostOnce w
    → AtMostOnce (change u q table w).1
unfolding change
change-AtMostOnce u q table w h =
    elim (Result-cases (resolve_routing u q.iccid q.company_id table)) [
      | inl (e, missing) ↦ rw (missing, change) h
      | inr (r, found) ↦ rw (found, change) (routed_change-AtMostOnce q r w h)
    ]

-- What one caller asks: the header, the profile, and the routing table of the time.
pub record Asked (Creds : Type 0) : Type 0 where
  pub header : Option String
  pub current : Profile
  pub request : WriteRequest Creds
  pub table : Table

-- requests that are served one after the other
unfoldable pub serve : {Creds : Type 0} → Unicode → List (Asked Creds) → World → World
serve u [] w = w
serve u (a ∷ rest) w = serve u rest (write_sim u a.header a.current a.request a.table w).1

write_sim-AtMostOnce :
    {Creds : Type 0} (u : Unicode) (header : Option String) (current : Profile)
    (q : WriteRequest Creds) (table : Table) (w : World)
    → AtMostOnce w
    → AtMostOnce (write_sim u header current q table w).1
unfolding write_sim
write_sim-AtMostOnce u header current q table w h =
    elim (Result-cases (require_idempotency_key header)) [
      | inl (e, missing) ↦ rw (missing, write_sim) h
      | inr (key, given) ↦ elim (Result-cases (require_roles (admin ∷ []) current)) [
        | inl (e, refused) ↦ rw (given, refused, write_sim) h
        | inr (profile, allowed) ↦ elim (Result-cases (get_current_company_id profile)) [
          | inl (e, unscoped) ↦ rw (given, allowed, unscoped, write_sim) h
          | inr (company, scoped) ↦
              rw (given, allowed, scoped, write_sim)
                (change-AtMostOnce u
                  (record q { key = key; company_id = company; actor_id = profile.id }) table w h)
        ]
      ]
    ]

-- Whatever writes are asked one after the other, by whom, and however the providers answer, a
-- company's idempotency key leads to at most one call that returned or was cancelled, and a key that
-- led to one is still held.
pub serve-AtMostOnce :
    {Creds : Type 0} (u : Unicode) (asked : List (Asked Creds)) (w : World)
    → AtMostOnce w
    → AtMostOnce (serve u asked w)
unfolding serve
serve-AtMostOnce u [] w h = h
serve-AtMostOnce u (a ∷ rest) w h =
    serve-AtMostOnce u rest _ (write_sim-AtMostOnce u a.header a.current a.request a.table w h)
