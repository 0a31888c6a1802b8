-- ===== src/Stats/Tests.antt =====
-- The statistics of a provider with one page.
use app_suscriptions_back.Prelude.{◌≡◌, refl, true, none, [], ◌∷◌, length, ltb}
use app_suscriptions_back.Errors.{ok}
use app_suscriptions_back.Domain.{no_filters}
use app_suscriptions_back.Listing.Credentials.{admin_effective_filters}
use app_suscriptions_back.Listing.Fixtures.{plain_python, kite_adapter, sim}
use app_suscriptions_back.Stats.{no_stats, collect_stats}
use app_suscriptions_back.Stats.Pages.{Pages, add_pages, collect_stats-Pages}

kite-Pages :
    Pages kite_adapter 1
      (admin_effective_filters kite_adapter no_filters true)
      none
      ((sim ∷ []) ∷ [])
kite-Pages = Pages.last refl refl

collect_stats-Pages_example :
    collect_stats plain_python 0 no_filters kite_adapter 1
    ≡ ok (
      add_pages plain_python 0 kite_adapter 1
          (admin_effective_filters kite_adapter no_filters true)
          100
          ((sim ∷ []) ∷ [])
          no_stats,
      ltb 100 (length ((sim ∷ []) ∷ [])),
    )
collect_stats-Pages_example =
    collect_stats-Pages plain_python 0 no_filters kite_adapter 1 ((sim ∷ []) ∷ []) kite-Pages
