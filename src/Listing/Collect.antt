-- ===== src/Listing/Collect.antt =====
-- What the searches and the listings of administrators share: SIMs are shown once, counted by
-- provider, and the providers' statuses are settled at the end.
use app_suscriptions_back.Prelude.{
  ℕ, ◌+◌, String, Bool, true, false, ◌&&◌, ◌||◌, Option, none, some, List, [], ◌∷◌, ◌++◌,
  if◌then◌else◌, str_eq, ltb,
}
use app_suscriptions_back.Errors.{Exception}
use app_suscriptions_back.Domain.{Subscription}
use app_suscriptions_back.Dict.{Dict, get, has, put}
use app_suscriptions_back.Normalization.{Python}
use app_suscriptions_back.Normalization.Scalars.{SubscriptionOut}
use app_suscriptions_back.Normalization.Parts.{to_out}
use app_suscriptions_back.Dispatch.{
  Failure, ProviderStatus, provider_failure, plain_status, answered, in_part, failed,
}
use app_suscriptions_back.Listing.{Report, set_status}
pub mod Once

-- the key of a shown SIM, a tuple of texts
abbrev pub ItemKey : Type 0
ItemKey = List String

unfoldable pub key_eq : ItemKey → ItemKey → Bool
key_eq [] [] = true
key_eq (x ∷ xs) (y ∷ ys) = str_eq x y && key_eq xs ys
key_eq [] (y ∷ ys) = false
key_eq (x ∷ xs) [] = false

unfoldable pub is_seen : ItemKey → List ItemKey → Bool
is_seen key [] = false
is_seen key (k ∷ seen) = key_eq k key || is_seen key seen

-- `items`, `seen_items`, `provider_success_counts` and `provider_errors_by_name`
pub record Collected : Type 0 where
  pub items : List SubscriptionOut
  pub seen : List ItemKey
  pub counts : Dict ℕ
  pub errors : Dict (Failure × ProviderStatus)

abbrev pub nothing : Collected
nothing = record { items = []; seen = []; counts = []; errors = [] }

-- `provider_success_counts.get(name, 0)`
unfoldable pub count_of : String → Dict ℕ → ℕ
unfolding get
count_of name counts = elim (get name counts) [ none ↦ 0 | some n ↦ n ]

-- `provider_errors_by_name[name] = _global_provider_failure(name, e)`
unfoldable pub set_error : String → Exception → Collected → Collected
unfolding put provider_failure
set_error name e c = record c { errors = put name (provider_failure name e) c.errors }

-- A SIM is shown and counted unless its key was seen.
unfoldable pub add_sub : Python → String → ItemKey → Subscription → Collected → Collected
unfolding is_seen put count_of to_out
add_sub python name key sub c = if is_seen key c.seen then c else record c {
  items = c.items ++ (to_out python sub ∷ []);
  seen = c.seen ++ (key ∷ []);
  counts = put name (count_of name c.counts + 1) c.counts;
}

unfoldable pub add_subs :
    Python → String → (Subscription → ItemKey) → List Subscription → Collected → Collected
unfolding add_sub
add_subs python name key_of [] c = c
add_subs python name key_of (sub ∷ subs) c =
    add_subs python name key_of subs (add_sub python name (key_of sub) sub c)

-- The status of a provider whose calls are over: an error, of a part where it also answered.
abbrev pub settled : String → Collected → Failure × ProviderStatus → ProviderStatus
settled name c (failure, status) = record {
  provider = name;
  status = if ltb 0 (count_of name c.counts) then in_part else failed;
  count = count_of name c.counts;
  code = status.code;
  title = status.title;
}

-- The loop that settles the statuses of the providers that have none yet.
unfoldable pub settle_statuses : List String → Collected → Report → Report
unfolding has get put count_of
settle_statuses [] c report = report
settle_statuses (name ∷ names) c report = settle_statuses names c (
    if has name report.statuses then report else elim (get name c.errors) [
      | none ↦ set_status (plain_status name answered (count_of name c.counts)) report
      | some error ↦ record report {
        failures = put name error.0 report.failures;
        statuses = put name (settled name c error) report.statuses;
      }
    ])
