-- ===== src/Rules/Examples.antt =====
-- Tests of the rules.
use collator.Prelude.{
  ℕ, ◌*◌, ℤ, pos, ◌<ℤ◌, minute, elapsed, sub64, [], ◌∷◌, true, ◌≡◌, refl, arith, All, inl, inr,
}
use collator.Model.{Overview}
use collator.Model.Samples.{sample_overview}
use collator.Rules.{fresh, evaluate, is_stalled, progress_step}
use collator.Rules.Signals.{raises}
use collator.Rules.Timers.{Sample, latest, timed_signals}
use collator.Rules.Stall.{StalledAt, stall_has_evidence}
use collator.Rules.Kinds.{Distinct, Guarded, evaluate-signals}

-- The service has stopped.
abbrev stopped : Overview
stopped = record sample_overview {
  node = record {
    name = "node";
    service_state = "failed";
    version = "5";
    uptime = pos 1;
    restart_count = pos 0;
  };
}

-- The external chains have grown by 25 blocks.
abbrev outrun : Overview
outrun = record sample_overview {
  chain = record {
    local_finalized = pos 100;
    local_best = pos 102;
    external_height = pos 127;
    external_a = pos 127;
    external_b = pos 127;
    lag = pos 27;
    peers = pos 20;
    status = "healthy";
  };
}

abbrev sample : ℕ → Overview → Sample
sample t s = record { at = t * minute; state = s }

timed_signals_example :
    raises "service-inactive" (latest (sample 3 stopped) (sample 1 stopped ∷ [])) ≡ true
timed_signals_example =
    (timed_signals (sample 3 stopped) (sample 1 stopped ∷ [])
        (omega arith, omega arith, (omega arith, omega arith, tt))).0.1
      (refl, inr (refl, inl (omega arith)))

stall_has_evidence_example :
    (frozen : ℤ) × (pos 0 <ℤ frozen)
    × StalledAt frozen (sample 7 outrun) (sample 7 outrun ∷ sample 1 sample_overview ∷ [])
unfolding evaluate is_stalled progress_step elapsed sub64
stall_has_evidence_example =
    stall_has_evidence (sample 7 outrun) (sample 1 sample_overview ∷ [])
      (omega arith, omega arith, (omega arith, omega arith, tt)) refl

evaluate-signals_example :
    Distinct (evaluate fresh (3 * minute) stopped).1
    × All Guarded (evaluate fresh (3 * minute) stopped).1
evaluate-signals_example = evaluate-signals fresh (3 * minute) stopped
