-- ===== src/Endpoints/Details/Partition.antt =====
-- Every SIM of a batch ends in one place of the answer.
use app_suscriptions_back.Prelude.{
  ℕ, ◌+◌, ◌≡◌, refl, sym, ap, subst, ◌∙◌, inl, inr, String, false, not, ◌||◌, List, [], ◌∷◌, map,
  length, length-map, arith, Bool-cases,
}
use app_suscriptions_back.Errors.{ok, ◌>>=◌, Exception}
use app_suscriptions_back.Normalization.Parts.{convert}
use app_suscriptions_back.Dict.{has}
use app_suscriptions_back.Filters.Query.{is_member}
use app_suscriptions_back.Filters.Query.Statuses.{IsDistinct}
use app_suscriptions_back.Routing.Table.{Table, PrefixRoute}
use app_suscriptions_back.Routing.NegativeCache.{Cache}
use app_suscriptions_back.Routing.Resolve.{Request}
use app_suscriptions_back.Listing.{Services}
use app_suscriptions_back.Listing.WhenOk.{WhenOk, WhenOk-bind, WhenOk-attempt, WhenOk-value}
use app_suscriptions_back.Endpoints.Details.{
  Batch, Resolved, DetailsItem, DetailsOut, no_summary, collect_results, resolve_batch, fetch_one,
  fetch_all, setup_provider, details_out, details_of,
}
use app_suscriptions_back.Endpoints.Details.{get_sim_details_batch}
use app_suscriptions_back.Domain.{Provider, value, is_nonempty}
use app_suscriptions_back.Prelude.{ltb}
use app_suscriptions_back.Filters.Query.{dedupe}
use app_suscriptions_back.Filters.Query.Statuses.{dedupe-IsDistinct}
use app_suscriptions_back.Endpoints.Details.Results.{
  counted, counted-count_statuses, collect_results-keeps, iccids_of,
}
use app_suscriptions_back.Endpoints.Details.Placed.{
  names_of, placed, is_placed, Placed, resolve_batch-Placed,
}

module _ {Creds : Type 0} (s : Services Creds) (q : String → Request Creds)
    (text_of : Exception → String) (prefixes : List PrefixRoute) (company : ℕ) where
  fetch_one-name :
      (item : Resolved)
      → WhenOk (λ got. got.0 ≡ item.0) (fetch_one s q text_of prefixes company item)
  unfolding fetch_one
  fetch_one-name (iccid, name, routed) =
      WhenOk-attempt (λ got. got.0 ≡ iccid) (setup_provider s q text_of prefixes company name) _ _
        (λ e. refl)
        (λ setup known.
          WhenOk-attempt (λ got. got.0 ≡ iccid)
            (s.get_subscription name routed setup.1 >>= λ sub. convert s.python sub) _ _ (λ e. refl)
            (λ sub answered. refl))

  fetch_all-names :
      (items : List Resolved)
      → WhenOk
          (λ got. iccids_of got ≡ map (λ item. item.0) items)
          (fetch_all s q text_of prefixes company items)
  unfolding fetch_all
  fetch_all-names [] = refl
  fetch_all-names (item ∷ items) =
      WhenOk-bind (λ (got : String × DetailsItem). got.0 ≡ item.0)
        (λ (got : List (String × DetailsItem)).
          iccids_of got ≡ map (λ (r : Resolved). r.0) (item ∷ items))
        (fetch_one s q text_of prefixes company item) _ (fetch_one-name item)
        (λ got name.
          WhenOk-bind
            (λ (others : List (String × DetailsItem)).
              iccids_of others ≡ map (λ (r : Resolved). r.0) items)
            (λ (all : List (String × DetailsItem)).
              iccids_of all ≡ map (λ (r : Resolved). r.0) (item ∷ items))
            (fetch_all s q text_of prefixes company items) (λ others. ok (got ∷ others))
            (fetch_all-names items) (λ others names. rw (name, names) refl))

  -- the answer of a batch is complete: what it says of each SIM, and its counts
  abbrev pub IsComplete : List String → DetailsOut → Type 0
  IsComplete iccids out =
      ((x : String)
        → (has x out.results || is_member x out.unresolved || is_member x out.filtered_out)
          ≡ is_member x iccids)
      × (length out.results + length out.unresolved + length out.filtered_out ≡ length iccids)
      × (counted out.summary ≡ length out.results)
      × (out.summary.total ≡ length out.results)

  details_out-IsComplete :
      (iccids : List String) (b b' : Batch) (items : List (String × DetailsItem))
      → placed b ≡ 0
      → ((x : String) → is_placed x b ≡ false)
      → Placed s q text_of prefixes company iccids b b'
      → iccids_of items ≡ names_of b'
      → IsComplete iccids (details_out s q text_of prefixes company b' items)
  unfolding details_out has
  details_out-IsComplete iccids b b' items empty nobody (size, known, distinct) names =
      let (results, has_results) =
        collect_results-keeps items [] (subst IsDistinct (sym names) distinct) (λ x i. refl) in
      let (count, total) =
        counted-count_statuses (collect_results items [])
          (no_summary (length (collect_results items []))) in
      let listed : length items ≡ length b'.resolved =
        sym (length-map (λ (item : String × DetailsItem). item.0) items)
        ∙ ap length names
        ∙ length-map (λ (item : Resolved). item.0) b'.resolved in
      (
        λ x.
            ground
              (arith, known x, nobody x, has_results x, ap (λ iccids. is_member x iccids) names),
        omega (arith, size, empty, results, listed),
        omega (arith, count),
        total,
      )

  details_of-IsComplete :
      (iccids allowed : List String) (table : Table) (cache : Cache) (b : Batch) (out : DetailsOut)
      → IsDistinct iccids
      → details_of s q text_of prefixes company iccids allowed table cache ≡ ok (b, out)
      → IsComplete iccids out
  unfolding details_of is_member
  details_of-IsComplete iccids allowed table cache b out once returned =
      let start : Batch = record {
        unresolved = [];
        filtered_out = [];
        resolved = [];
        table = table;
        cache = cache;
      } in
      WhenOk-value (λ (answer : Batch × DetailsOut). IsComplete iccids answer.1)
        (details_of s q text_of prefixes company iccids allowed table cache) (b, out) returned
        (WhenOk-bind (Placed s q text_of prefixes company iccids start)
          (λ (answer : Batch × DetailsOut). IsComplete iccids answer.1)
          (resolve_batch s q text_of prefixes company allowed iccids start) _
          (resolve_batch-Placed s q text_of prefixes company allowed iccids start once tt
            (λ x i. refl))
          (λ b' placed'.
            WhenOk-bind (λ (items : List (String × DetailsItem)). iccids_of items ≡ names_of b')
              (λ (answer : Batch × DetailsOut). IsComplete iccids answer.1)
              (fetch_all s q text_of prefixes company b'.resolved)
              (λ items. ok (b', details_out s q text_of prefixes company b' items))
              (fetch_all-names b'.resolved)
              (λ items names.
                details_out-IsComplete iccids start b' items refl (λ x. refl) placed' names)))

  -- An answer of the batch endpoint has each ICCID of the request in exactly one place: among the
  -- results, the unresolved or the filtered ones, also one that was sent several times, and nothing
  -- else; the counts of the summary add up to its total, the number of results.
  pub get_sim_details_batch-IsComplete :
      (max_batch : ℕ) (too_large : ℕ → String) (iccids : List String) (allowed : List Provider)
      (table : Table) (cache : Cache) (b : Batch) (out : DetailsOut)
      → get_sim_details_batch s q text_of prefixes company max_batch too_large iccids allowed table
          cache
        ≡ ok (b, out)
      → IsComplete (dedupe [] iccids) out
  unfolding get_sim_details_batch
  get_sim_details_batch-IsComplete max_batch too_large iccids allowed table cache b out returned =
      elim (Bool-cases (not (is_nonempty iccids))) [
        | inl none_sent ↦ cc (rw (get_sim_details_batch, none_sent) at returned)
        | inr sent ↦ elim (Bool-cases (ltb max_batch (length iccids))) [
          | inl many ↦ cc (rw (get_sim_details_batch, sent, many) at returned)
          | inr few ↦
              details_of-IsComplete (dedupe [] iccids) (map value allowed) table cache b out
                (dedupe-IsDistinct [] iccids) (rw (get_sim_details_batch, sent, few) at returned)
        ]
      ]
