-- ===== src/Endpoints/Statistics.antt =====
-- `get_sim_stats` and `admin_get_sim_stats`: the counts of several providers, of which some may fail.
use Prim.Native.String.{◌++◌ as append}
use app_suscriptions_back.Prelude.{
  ℕ, String, Bool, true, false, ◌||◌, Option, none, some, List, [], ◌∷◌, ◌++◌, if◌then◌else◌,
}
use app_suscriptions_back.Errors.{
  Result, ok, err, ◌>>=◌, Exception, domain, string, listing_precondition_failed,
}
use app_suscriptions_back.Domain.{SearchFilters, Provider, kite, tele2, moabits, value}
use app_suscriptions_back.Dispatch.{Failure, provider_failure}
use app_suscriptions_back.Listing.{Services, attempt}
use app_suscriptions_back.Listing.Credentials.{CredentialRow, active_admin_credential_rows}
use app_suscriptions_back.Listing.Admin.{chosen_names}
use app_suscriptions_back.Stats.{
  Stats, no_stats, collect_stats, collect_provider_stats, merge_stats,
}
use app_suscriptions_back.Endpoints.{SimQuery, stats_filters}

-- `SimStatsOut`, without the time of the answer
pub record SimStatsOut : Type 0 where
  pub stats : Stats
  pub provider : Option String
  pub is_partial : Bool
  pub failed_providers : List Failure

-- what the loop over the providers has counted
pub record Tally : Type 0 where
  pub stats : Stats
  pub is_partial : Bool
  pub failed : List Failure

abbrev pub no_tally : Tally
no_tally = record { stats = no_stats; is_partial = false; failed = [] }

-- a provider that failed
unfoldable pub tally_failure : String → Exception → Tally → Tally
unfolding provider_failure
tally_failure name e tally = record tally {
  is_partial = true;
  failed = tally.failed ++ ((provider_failure name e).0 ∷ []);
}

unfoldable pub tally_stats : Stats × Bool → Tally → Tally
unfolding merge_stats
tally_stats (stats, is_partial) tally = record tally {
  stats = merge_stats tally.stats stats;
  is_partial = tally.is_partial || is_partial;
}

abbrev pub name_of : Option Provider → Option String
name_of none = none
name_of (some provider) = some (value provider)

abbrev pub stats_out : Option Provider → Tally → SimStatsOut
stats_out provider tally = record {
  stats = tally.stats;
  provider = name_of provider;
  is_partial = tally.is_partial;
  failed_providers = tally.failed;
}

module _ {Creds : Type 0} (s : Services Creds) (parse : String → Option (Result ℕ))
    (threshold : ℕ) where
  open s use {python, registry, load_credentials}

  -- The loop of `get_sim_stats`.
  unfoldable pub tally_providers : SearchFilters → ℕ → List String → Tally → Result Tally
  unfolding tally_failure tally_stats collect_provider_stats
  tally_providers filters company [] tally = ok tally
  tally_providers filters company (name ∷ names) tally =
      attempt (collect_provider_stats python threshold s name filters company)
        (λ e. ok (tally_failure name e tally)) (λ counted. ok (tally_stats counted tally))
      >>= λ tally'. tally_providers filters company names tally'

  -- `get_sim_stats`
  unfoldable pub get_sim_stats : Option Provider → SimQuery → ℕ → Result SimStatsOut
  unfolding stats_filters tally_providers value
  get_sim_stats provider query company = stats_filters python parse query >>= λ filters.
      tally_providers filters company (chosen_names provider) no_tally >>= λ tally.
      ok (stats_out provider tally)

  -- the counts of one credential
  unfoldable pub credential_stats : SearchFilters → String → CredentialRow → Result (Stats × Bool)
  unfolding collect_stats
  credential_stats filters name row = registry name >>= λ adapter.
      if adapter.searchable
      then (load_credentials row.company_id name >>= λ creds.
          collect_stats python threshold filters adapter creds)
      else err (
          domain (record {
            kind = listing_precondition_failed;
            detail = some (append "Provider '" (append name "' does not expose native listing."));
            extra =
                ("provider", string name)
                ∷ ("missing_capability", string "SearchableProvider")
                ∷ [];
          }))

  unfoldable pub tally_rows : SearchFilters → String → List CredentialRow → Tally → Result Tally
  unfolding tally_failure tally_stats credential_stats
  tally_rows filters name [] tally = ok tally
  tally_rows filters name (row ∷ rows) tally =
      attempt (credential_stats filters name row) (λ e. ok (tally_failure name e tally))
        (λ counted. ok (tally_stats counted tally))
      >>= λ tally'. tally_rows filters name rows tally'

  -- the providers of an administrator's statistics
  abbrev pub chosen : Option Provider → List Provider
  chosen none = kite ∷ tele2 ∷ moabits ∷ []
  chosen (some provider) = provider ∷ []

  -- The loop of `admin_get_sim_stats`.
  unfoldable pub tally_admin :
      SearchFilters → List CredentialRow → List Provider → Tally → Result Tally
  unfolding active_admin_credential_rows tally_rows value
  tally_admin filters rows [] tally = ok tally
  tally_admin filters rows (provider ∷ rest) tally =
      tally_rows filters (value provider) (active_admin_credential_rows (some provider) rows) tally
      >>= λ tally'. tally_admin filters rows rest tally'

  -- `admin_get_sim_stats`
  unfoldable pub admin_get_sim_stats :
      List CredentialRow → Option Provider → SimQuery → Result SimStatsOut
  unfolding stats_filters tally_admin
  admin_get_sim_stats rows provider query = stats_filters python parse query >>= λ filters.
      tally_admin filters rows (chosen provider) no_tally >>= λ tally. ok (stats_out provider tally)
