-- ===== src/Controller/Status/Justified.antt =====
-- The signals about the rewards agree with the status that is shown.
use collator.Prelude.{◌≤◌, List, length, Bool, true, false, some, ◌≡◌, All, ◌⊎◌}
use collator.Model.{Result, Overview, RewardOverview, RewardObservation}
use collator.Rules.{Signal}
use collator.Controller.Status.{is_confirmed_anomaly, first_anomaly, page_of, is_chain_held}

-- Why a signal is given.
abbrev pub Justified :
    RewardOverview → Overview → Result (List RewardObservation) → Bool → Signal → Type 0
Justified x state page progressing s =
    ((s.fingerprint ≡ "reward-monitor-degraded")
      × (s.severity ≡ "warning")
      × (x.status ≡ "degraded"))
    ⊎ ((s.fingerprint ≡ "reward-active-set-missing")
        × (s.severity ≡ "critical")
        × (x.status ≡ "critical")
        × (x.active_session ≡ false))
    ⊎ ((s.fingerprint ≡ "reward-credit-mismatch")
        × (s.severity ≡ "critical")
        × ((item : RewardObservation) × (first_anomaly (page_of page) ≡ some item)
            × (is_confirmed_anomaly item ≡ true)))
    ⊎ ((s.fingerprint ≡ "reward-silence")
        × (s.severity ≡ x.status)
        × (x.active_session ≡ true)
        × (is_chain_held state progressing ≡ false))

-- What may be said of the whole answer.
abbrev pub Sound :
    RewardOverview → Overview → Result (List RewardObservation) → Bool → List Signal → Type 0
Sound x state page progressing signals =
    All (λ s. Justified x state page progressing s × (s.auto_candidate ≡ false)) signals
    × (length signals ≤ 1)
    × ((length signals ≡ 1)
        ⊎ (x.status ≡ "healthy")
        ⊎ (x.status ≡ "verifying")
        ⊎ (is_chain_held state progressing ≡ true))

-- The status, where the monitor is not degraded and the wallet is not known to be missing.
abbrev Later : RewardOverview → Type 0
Later x =
    (x.status ≡ "verifying")
    ⊎ ((x.active_session ≡ true)
        × ((x.status ≡ "critical") ⊎ (x.status ≡ "warning") ⊎ (x.status ≡ "healthy")))
