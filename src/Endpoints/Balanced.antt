-- ===== src/Endpoints/Balanced.antt =====
-- The statistics of several providers add up, and are marked as partial when a provider failed.
use mathlib.Core.List.{append-nil, append_assoc}
use app_suscriptions_back.Prelude.{
  ℕ, zero, suc, ◌≡◌, refl, String, Bool, true, false, not, ◌&&◌, ◌||◌, ◌+◌, ◌++◌, ◌∙◌, sym, ap,
  Option, none, List, [], ◌∷◌, arith, ◌==◌, Bool-cases, inl, inr,
}
use app_suscriptions_back.Errors.{
  Result, ok, err, ◌>>=◌, Exception, domain, http, timeout, other, cancelled, Result-cases,
}
use app_suscriptions_back.Domain.{SearchFilters, Provider, Adapter, is_text, is_nonempty}
use app_suscriptions_back.Dispatch.{Failure, provider_failure}
use app_suscriptions_back.Normalization.{Python}
use app_suscriptions_back.Filters.{apply_post_filters}
use app_suscriptions_back.Listing.{Services, attempt}
use app_suscriptions_back.Listing.Admin.{chosen_names}
use app_suscriptions_back.Listing.Credentials.{admin_effective_filters}
use app_suscriptions_back.Listing.WhenOk.{
  WhenOk, WhenOk-bind, WhenOk-attempt, WhenOk-value, WhenOk-then, WhenOk-weaken, WhenOk-both,
}
use app_suscriptions_back.Stats.{
  Stats, no_stats, stats_page, count_pages, collect_stats, collect_provider_stats, add_subs_stats,
  max_pages, merge_stats,
}
use app_suscriptions_back.Stats.Merge.{
  IsBalanced, count_all, add_subs_stats-IsBalanced, merge_stats-IsBalanced,
}
use app_suscriptions_back.Endpoints.{SimQuery, stats_filters}
use app_suscriptions_back.Endpoints.Statistics.{
  SimStatsOut, Tally, no_tally, tally_failure, tally_stats, stats_out, tally_providers,
  get_sim_stats,
}

no_stats-IsBalanced : IsBalanced no_stats
unfolding count_all
no_stats-IsBalanced = (refl, refl, omega arith)

-- the counts of what was read add up
abbrev Counted : Stats × Bool → Type 0
Counted read = IsBalanced read.0

-- The counts add up; a provider that failed makes them partial.
abbrev pub IsHonest : Stats → Bool → List Failure → Type 0
IsHonest stats is_partial failed =
    IsBalanced stats × ((is_nonempty failed && not is_partial) ≡ false)

abbrev HonestTally : Tally → Type 0
HonestTally tally = IsHonest tally.stats tally.is_partial tally.failed

module _ {Creds : Type 0} (python : Python) (threshold : ℕ) (adapter : Adapter Creds)
    (creds : Creds) (filters : SearchFilters) where
  count_pages-Counted :
      (n : ℕ) (cursor : Option String) (stats : Stats)
      → IsBalanced stats
      → WhenOk Counted (count_pages python threshold adapter creds filters n cursor stats)
  unfolding count_pages
  count_pages-Counted zero cursor stats h = h
  count_pages-Counted (suc n) cursor stats h =
      elim (Result-cases (stats_page python threshold adapter creds filters cursor)) [
        | inl (e, failed) ↦ rw (count_pages, failed) tt
        | inr (answer, answered) ↦
            let stats' =
              add_subs_stats python threshold (apply_post_filters python filters answer.0) stats in
            let kept : IsBalanced stats' =
              add_subs_stats-IsBalanced python threshold
                (apply_post_filters python filters answer.0) stats h in
            elim (Bool-cases (is_text answer.1)) [
              | inr last ↦ rw (count_pages, answered, last) kept
              | inl more ↦ elim (Bool-cases (n == 0)) [
                | inl full ↦ rw (count_pages, answered, more, full) kept
                | inr room ↦
                    rw (count_pages, answered, more, room)
                      (count_pages-Counted n answer.1 stats' kept)
              ]
            ]
      ]

module _ {Creds : Type 0} (s : Services Creds) (parse : String → Option (Result ℕ))
    (threshold : ℕ) where
  collect_stats-Counted :
      (filters : SearchFilters) (adapter : Adapter Creds) (creds : Creds)
      → WhenOk Counted (collect_stats s.python threshold filters adapter creds)
  unfolding collect_stats
  collect_stats-Counted filters adapter creds =
      count_pages-Counted s.python threshold adapter creds
        (admin_effective_filters adapter filters true) max_pages none no_stats no_stats-IsBalanced

  collect_provider_stats-Counted :
      (name : String) (filters : SearchFilters) (company : ℕ)
      → WhenOk Counted (collect_provider_stats s.python threshold s name filters company)
  unfolding collect_provider_stats
  collect_provider_stats-Counted name filters company =
      WhenOk-then Counted (s.registry name) _ (λ adapter. elim (Bool-cases adapter.searchable) [
        | inr mute ↦ rw mute tt
        | inl lists ↦ rw lists (
            WhenOk-then Counted (s.load_credentials company name)
              (λ creds. collect_stats s.python threshold filters adapter creds)
              (collect_stats-Counted filters adapter))
      ])

  tally_stats-HonestTally :
      (read : Stats × Bool) (tally : Tally)
      → Counted read
      → HonestTally tally
      → HonestTally (tally_stats read tally)
  unfolding tally_stats
  tally_stats-HonestTally (stats, partly) tally h (balanced, caused) =
      (merge_stats-IsBalanced tally.stats stats balanced h, ground (arith, caused))

  tally_failure-HonestTally :
      (name : String) (e : Exception) (tally : Tally)
      → HonestTally tally
      → HonestTally (tally_failure name e tally)
  unfolding tally_failure
  tally_failure-HonestTally name e tally (balanced, caused) = (balanced, ground arith)

  tally_providers-HonestTally :
      (filters : SearchFilters) (company : ℕ) (names : List String) (tally : Tally)
      → HonestTally tally
      → WhenOk HonestTally (tally_providers s parse threshold filters company names tally)
  unfolding tally_providers
  tally_providers-HonestTally filters company [] tally h = h
  tally_providers-HonestTally filters company (name ∷ names) tally h =
      let counted = collect_provider_stats s.python threshold s name filters company in
      WhenOk-bind HonestTally HonestTally
        (attempt counted (λ e. ok (tally_failure name e tally))
          (λ read. ok (tally_stats read tally)))
        (λ tally'. tally_providers s parse threshold filters company names tally')
        (WhenOk-attempt HonestTally counted _ _ (λ e. tally_failure-HonestTally name e tally h)
          (λ read answered.
            tally_stats-HonestTally read tally
              (WhenOk-value Counted counted read answered
                (collect_provider_stats-Counted name filters company))
              h))
        (λ tally' h'. tally_providers-HonestTally filters company names tally' h')

  -- what one provider's answer adds to the total, to the failures, and to the partial flag
  abbrev total_of : Result (Stats × Bool) → ℕ
  total_of (ok read) = read.0.total
  total_of (err e) = 0

  abbrev failure_of : String → Result (Stats × Bool) → List Failure
  failure_of name (ok read) = []
  failure_of name (err e) = (provider_failure name e).0 ∷ []

  abbrev is_cut : Result (Stats × Bool) → Bool
  is_cut (ok read) = read.1
  is_cut (err e) = true

  module _ (filters : SearchFilters) (company : ℕ) where
    abbrev counted_for : String → Result (Stats × Bool)
    counted_for name = collect_provider_stats s.python threshold s name filters company

    -- the SIMs of the providers that answered
    pub sum_totals : List String → ℕ
    sum_totals [] = 0
    sum_totals (name ∷ names) = total_of (counted_for name) + sum_totals names

    -- the failures of the others, in the order of the providers
    pub all_failures : List String → List Failure
    all_failures [] = []
    all_failures (name ∷ names) = failure_of name (counted_for name) ++ all_failures names

    -- whether a provider failed or had more pages than are read
    pub any_cut : List String → Bool
    any_cut [] = false
    any_cut (name ∷ names) = is_cut (counted_for name) || any_cut names

    -- A tally has counted these providers, from another tally.
    abbrev pub CountsAll : List String → Tally → Tally → Type 0
    CountsAll names before after =
        (after.stats.total ≡ before.stats.total + sum_totals names)
        × (after.failed ≡ before.failed ++ all_failures names)
        × (after.is_partial ≡ (before.is_partial || any_cut names))

    -- one provider's answer, tallied
    abbrev Tallied : String → Result (Stats × Bool) → Tally → Tally → Type 0
    Tallied name read before after =
        (after.stats.total ≡ before.stats.total + total_of read)
        × (after.failed ≡ before.failed ++ failure_of name read)
        × (after.is_partial ≡ (before.is_partial || is_cut read))

    attempt-Tallied :
        (name : String) (read : Result (Stats × Bool)) (tally : Tally)
        → WhenOk (Tallied name read tally) (
            attempt read
              (λ e. ok (tally_failure name e tally))
              (λ read. ok (tally_stats read tally)))
    unfolding tally_failure tally_stats merge_stats
    attempt-Tallied name (ok read) tally = (refl, sym (append-nil tally.failed), refl)
    attempt-Tallied name (err cancelled) tally = tt
    attempt-Tallied name (err (domain e)) tally = (ground arith, refl, ground arith)
    attempt-Tallied name (err (http status detail)) tally = (ground arith, refl, ground arith)
    attempt-Tallied name (err timeout) tally = (ground arith, refl, ground arith)
    attempt-Tallied name (err (other text)) tally = (ground arith, refl, ground arith)

    tally_providers-CountsAll :
        (names : List String) (tally : Tally)
        → WhenOk
            (CountsAll names tally)
            (tally_providers s parse threshold filters company names tally)
    unfolding tally_providers sum_totals all_failures any_cut
    tally_providers-CountsAll [] tally = (omega arith, sym (append-nil tally.failed), ground arith)
    tally_providers-CountsAll (name ∷ names) tally =
        WhenOk-bind (Tallied name (counted_for name) tally) (CountsAll (name ∷ names) tally)
          (attempt (counted_for name) (λ e. ok (tally_failure name e tally))
            (λ read. ok (tally_stats read tally)))
          (λ tally'. tally_providers s parse threshold filters company names tally')
          (attempt-Tallied name (counted_for name) tally)
          (λ tally' (total', failed', cut').
            WhenOk-weaken (CountsAll names tally') (CountsAll (name ∷ names) tally)
              (tally_providers s parse threshold filters company names tally')
              (tally_providers-CountsAll names tally')
              (λ after (total, failed, cut). (
                omega (arith, total, total'),
                failed
                    ∙ ap (λ fs. fs ++ all_failures names) failed'
                    ∙ append_assoc tally.failed (failure_of name (counted_for name))
                        (all_failures names),
                ground (arith, cut, cut'),
              )))

  -- what an answer of the statistics says, for the filters of its query
  abbrev pub IsExact : SearchFilters → Option Provider → ℕ → SimStatsOut → Type 0
  IsExact filters provider company out =
      IsHonest out.stats out.is_partial out.failed_providers
      × (out.stats.total ≡ sum_totals filters company (chosen_names provider))
      × (out.failed_providers ≡ all_failures filters company (chosen_names provider))
      × (out.is_partial ≡ any_cut filters company (chosen_names provider))

  -- The statistics of a company that return have as their total the sum of the totals of the
  -- providers that answered, list the failures of exactly the others, in order, and are partial
  -- exactly when a provider failed or had more pages than are read. The counts by status and the
  -- counts by group each add up to the total, and no more SIMs are stale than there are.
  pub get_sim_stats-IsHonest :
      (provider : Option Provider) (query : SimQuery) (company : ℕ) (out : SimStatsOut)
      → get_sim_stats s parse threshold provider query company ≡ ok out
      → (filters : SearchFilters) × (stats_filters s.python parse query ≡ ok filters)
        × IsExact filters provider company out
  unfolding get_sim_stats
  get_sim_stats-IsHonest provider query company out returned =
      elim (Result-cases (stats_filters s.python parse query)) [
        | inl (e, failed) ↦ cc (rw (get_sim_stats, failed) at returned)
        | inr (filters, parsed) ↦ (
          filters,
          parsed,
          WhenOk-value (IsExact filters provider company)
              (tally_providers s parse threshold filters company (chosen_names provider) no_tally
                >>= λ tally. ok (stats_out provider tally))
              out (rw (get_sim_stats, parsed) at returned)
              (WhenOk-bind
                (λ tally.
                  HonestTally tally
                  × CountsAll filters company (chosen_names provider) no_tally tally)
                (IsExact filters provider company)
                (tally_providers s parse threshold filters company (chosen_names provider) no_tally)
                (λ tally. ok (stats_out provider tally))
                (WhenOk-both _ _
                  (tally_providers s parse threshold filters company (chosen_names provider)
                    no_tally)
                  (tally_providers-HonestTally filters company (chosen_names provider) no_tally
                    (no_stats-IsBalanced, refl))
                  (tally_providers-CountsAll filters company (chosen_names provider) no_tally))
                (λ tally (honest, (total, failed, cut)).
                  (honest, omega (arith, total), failed, cut))),
        )
      ]
