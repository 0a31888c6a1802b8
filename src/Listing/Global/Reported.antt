-- ===== src/Listing/Global/Reported.antt =====
-- The report of a page of the listing over all providers.
use app_suscriptions_back.Prelude.{
  ℕ, ◌+◌, ◌≤◌, ◌≡◌, refl, sym, ap, subst, ◌∙◌, String, Bool, true, false, not, ◌&&◌, Option, none,
  some, List, [], ◌∷◌, map, length, All, arith, str_eq_refl, Option-cases, inl, inr,
}
use app_suscriptions_back.Errors.{ok}
use app_suscriptions_back.Domain.{is_nonempty, value, Subscription}
use app_suscriptions_back.Dict.{Dict, get}
use app_suscriptions_back.Cursors.{CursorMap, decode_global_cursor, encode_global_cursor}
use app_suscriptions_back.Dispatch.{Failure, ProviderStatus, call_limits}
use app_suscriptions_back.Dispatch.Limits.{sum, length-call_limits}
use app_suscriptions_back.Filters.Query.{is_member}
use app_suscriptions_back.Filters.Query.Statuses.{IsDistinct}
use app_suscriptions_back.Routing.Table.{Table}
use app_suscriptions_back.Listing.{
  SimListOut, Services, Query, Report, no_report, in_order, page_size,
}
use app_suscriptions_back.Listing.WhenOk.{WhenOk, WhenOk-value, WhenOk-bind}
use app_suscriptions_back.Listing.Global.{
  names, prepare_all, share_page, plan_page, page_of, merge_answers, first, list_page,
}
use app_suscriptions_back.Listing.Global.Returned.{list_page-IsMade}
use app_suscriptions_back.Listing.Global.Pending.{Pending, Told, IsLost, total}
use app_suscriptions_back.Listing.Global.Narrowed.{Narrowed}
use app_suscriptions_back.Listing.Global.Steps.{call_names}
use app_suscriptions_back.Listing.Global.Answers.{AllConvert, merge_answers-Pending}
use app_suscriptions_back.Listing.Global.Counts.{prepare_all-Narrowed, share-Narrowed}

names-IsDistinct : IsDistinct names
unfolding is_member value
names-IsDistinct = (refl, (refl, (refl, tt)))

start-Pending : Pending names (λ x. is_member x names) 0 no_report
unfolding total get
start-Pending = record {
  fresh = λ x i. (refl, refl, refl);
  told = λ x out inside. cc;
  counted = refl;
  inside = λ x i. i;
}

-- the statuses of providers that have one, in order
in_order-providers :
    (ns : List String) (d : Dict ProviderStatus)
    → ((x : String)
        → is_member x ns ≡ true
        → (status : ProviderStatus) × (get x d ≡ some status) × (status.provider ≡ x))
    → map (λ status. status.provider) (in_order ns d) ≡ ns
unfolding in_order is_member
in_order-providers [] d h = refl
in_order-providers (n ∷ ns) d h =
    let (status, found, own) = h n (ground (arith, str_eq_refl n)) in
    let rest = in_order-providers ns d (λ x i. h x (ground (arith, i))) in
    rw (in_order, found, own) (ap (λ xs. n ∷ xs) rest)

in_order-counts :
    (ns : List String) (d : Dict ProviderStatus)
    → sum (map (λ status. status.count) (in_order ns d)) ≡ total ns d
unfolding in_order total sum
in_order-counts [] d = refl
in_order-counts (n ∷ ns) d = elim (Option-cases (get n d)) [
  | inl absent ↦ rw (in_order, total, absent) (omega (arith, in_order-counts ns d))
  | inr (status, found) ↦
      rw (in_order, total, found) (ap (λ k. status.count + k) (in_order-counts ns d))
]

-- a provider that failed has no cursor for the next page
in_order-lost :
    (ns : List String) (failures : Dict Failure) (cursors : CursorMap)
    → ((x : String) → is_member x ns ≡ true → IsLost x (get x failures) (get x cursors))
    → All (λ failure. get failure.provider cursors ≡ none) (in_order ns failures)
unfolding in_order is_member
in_order-lost [] failures cursors h = tt
in_order-lost (n ∷ ns) failures cursors h =
    let rest = in_order-lost ns failures cursors (λ x i. h x (ground (arith, i))) in
    elim (Option-cases (get n failures)) [
      | inl absent ↦ rw (in_order, absent) rest
      | inr (failure, found) ↦
          let lost = h n (ground (arith, str_eq_refl n)) in
          let (own, gone) = rw found at lost in rw (in_order, found) (rw own gone, rest)
    ]

module _ {Creds : Type 0} (s : Services Creds) (company : ℕ) where
  -- the providers of the calls are those that are still to be reported on
  abbrev Ready : List (Query Creds) × Report → Type 0
  Ready (calls, report) =
      (p : String → Bool) × Pending names p 0 report
      × ((x : String) → p x ≡ is_member x (call_names calls))
      × IsDistinct (call_names calls)

  plan_page-Ready :
      (cursor : Option String) (limit : ℕ) → WhenOk Ready (plan_page s company cursor limit)
  unfolding plan_page
  plan_page-Ready cursor limit =
      WhenOk-bind
        (λ (prepared : List (Query Creds) × Report).
          Narrowed names (λ x. is_member x names) 0 names (call_names prepared.0) prepared.1)
        Ready (prepare_all s company (decode_global_cursor s.codec cursor) names no_report)
        (λ prepared. ok (share_page s company limit prepared))
        (prepare_all-Narrowed names names-IsDistinct s company (λ x. is_member x names)
          (decode_global_cursor s.codec cursor) names no_report names-IsDistinct (λ x i. i)
          start-Pending)
        (λ (calls, report) (p, h, p-eq, inside, once).
          let free : (x : String) → is_member x (call_names calls) ≡ true → p x ≡ true =
            λ x i. ground (arith, p-eq x, inside x i, i) in
          let (p', h', p'-eq, inside', once') =
            share-Narrowed names names-IsDistinct s company p 0 calls
              (call_limits (page_size limit) (length calls)) report
              (length-call_limits (page_size limit) (length calls)) once free h in
          (p', h', λ x. ground (arith, p'-eq x, p-eq x, inside x, inside' x), once'))

  -- What a page that returns was made of: everything is reported on.
  merged-Told :
      (plan : List (Query Creds) × Report) (table : Table)
      → Ready plan
      → let m = merge_answers s company plan.0 (first s company table plan.1) in
        ((x : String) → is_member x names ≡ true → Told x m.report)
        × (total names m.report.statuses ≤ length m.items)
        × (AllConvert names names-IsDistinct s company
            → total names m.report.statuses ≡ length m.items)
  merged-Told plan table (p, h, p-eq, once) =
      let (p', n, h', fits, p'-eq) =
        merge_answers-Pending names names-IsDistinct s company p plan.0
          (first s company table plan.1) 0 once (λ x i. ground (arith, p-eq x, i)) h
          (omega arith, λ whole. refl) in
      (
        λ x i. h'.told x (ground (arith, p'-eq x, p-eq x)) i,
        omega (arith, h'.counted, fits.0),
        λ whole. h'.counted ∙ fits.1 whole,
      )

  -- A page of the listing over all providers that returns has a status for every provider, in order,
  -- and their counts add up to no more SIMs than it shows; a page without a SIM has no failure.
  pub list_page-reports :
      (cursor : Option String) (limit : ℕ) (table : Table) (out : SimListOut)
      → (list_page s company cursor limit table).0 ≡ ok out
      → (map (λ status. status.provider) out.provider_statuses ≡ names)
        × (sum (map (λ status. status.count) out.provider_statuses) ≤ length out.items)
        × ((not (is_nonempty out.items) && is_nonempty out.failed_providers) ≡ false)
  unfolding page_of
  list_page-reports cursor limit table out returned =
      let (plan, planned, made) = list_page-IsMade s company cursor limit table out returned in
      let (told, counted, exact) = merged-Told plan table (
        WhenOk-value Ready (plan_page s company cursor limit) plan planned
          (plan_page-Ready cursor limit)) in
      let m = merge_answers s company plan.0 (first s company table plan.1) in
      subst
        (λ page.
          (map (λ status. status.provider) page.provider_statuses ≡ names)
          × (sum (map (λ status. status.count) page.provider_statuses) ≤ length page.items)
          × ((not (is_nonempty page.items) && is_nonempty page.failed_providers) ≡ false))
        (sym made.0)
        (
          in_order-providers names m.report.statuses (λ x i. let t = told x i in (t.0, t.1, t.2)),
          omega (arith, in_order-counts names m.report.statuses, counted),
          made.2,
        )

  -- When no conversion of a SIM raises, the counts of the statuses of a page that returns add up to
  -- exactly the SIMs that it shows, whichever providers failed, or failed to be stored.
  pub list_page-counts :
      ((sub : Subscription) → s.python.fault sub ≡ none)
      → (cursor : Option String) (limit : ℕ) (table : Table) (out : SimListOut)
      → (list_page s company cursor limit table).0 ≡ ok out
      → sum (map (λ status. status.count) out.provider_statuses) ≡ length out.items
  unfolding page_of
  list_page-counts whole cursor limit table out returned =
      let (plan, planned, made) = list_page-IsMade s company cursor limit table out returned in
      let (told, counted, exact) = merged-Told plan table (
        WhenOk-value Ready (plan_page s company cursor limit) plan planned
          (plan_page-Ready cursor limit)) in
      let m = merge_answers s company plan.0 (first s company table plan.1) in
      subst (λ page. sum (map (λ status. status.count) page.provider_statuses) ≡ length page.items)
        (sym made.0) (in_order-counts names m.report.statuses ∙ exact whole)

  -- The cursor of the next page of a page that returns is the encoding of a map that has no entry for
  -- a provider that failed on this page.
  pub list_page-forgets :
      (cursor : Option String) (limit : ℕ) (table : Table) (out : SimListOut)
      → (list_page s company cursor limit table).0 ≡ ok out
      → (next : CursorMap) × (out.next_cursor ≡ encode_global_cursor s.codec next)
        × All (λ failure. get failure.provider next ≡ none) out.failed_providers
  unfolding page_of
  list_page-forgets cursor limit table out returned =
      let (plan, planned, made) = list_page-IsMade s company cursor limit table out returned in
      let (told, counted, exact) = merged-Told plan table (
        WhenOk-value Ready (plan_page s company cursor limit) plan planned
          (plan_page-Ready cursor limit)) in
      let m = merge_answers s company plan.0 (first s company table plan.1) in
      (
        m.report.cursors,
        ap (λ page. page.next_cursor) made.0,
        subst
            (λ page.
              All (λ failure. get failure.provider m.report.cursors ≡ none) page.failed_providers)
            (sym made.0)
            (in_order-lost names m.report.failures m.report.cursors (λ x i. (told x i).3)),
      )
