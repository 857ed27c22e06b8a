-- ===== src/Controller/Externals.antt =====
-- The public nodes of cmd/controller/main.go: when each may be asked again, and how they confirm an
-- anomaly that the local node reports. The three arrays of length 2 are one list of entries.
pub mod Confirmed
use collator.Prelude.{
  ℕ, zero, suc, ◌+◌, ℤ, Time, minute, before, is_zero, List, [], ◌∷◌, length, Bool, true, false,
  not, ◌&&◌, ◌||◌, ◌==◌, ltb, if◌then◌else◌, String, ◌=?◌,
}
use collator.Model.{Error, Result, ok, err, RewardObservation, RewardScan}
use collator.Store.{put}
use collator.Controller.Backoff.{reward_retry_backoff}

-- `rewardExternalOK`, `rewardExternalFails` and `rewardExternalRetry` at one index.
pub record External : Type 0 where
  pub healthy : Bool
  pub fails : ℕ
  pub retry : Time

-- One entry changed; an index out of range changes nothing, as the source's guard has it.
unfoldable pub update_at : ℕ → (External → External) → List External → List External
update_at i f [] = []
update_at zero f (e ∷ es) = f e ∷ es
update_at (suc i) f (e ∷ es) = e ∷ update_at i f es

abbrev pub is_due : Time → External → Bool
is_due now e = is_zero e.retry || not (before now e.retry)

-- `rewardExternalReady`
unfoldable pub reward_external_ready : ℕ → Time → List External → Bool
reward_external_ready i now [] = false
reward_external_ready zero now (e ∷ es) = is_due now e
reward_external_ready (suc i) now (e ∷ es) = reward_external_ready i now es

abbrev pub succeeded : Time → External → External
succeeded now e = record { healthy = true; fails = 0; retry = now + minute }

abbrev pub failed : Time → External → External
failed now e = record {
  healthy = false;
  fails = suc e.fails;
  retry = now + reward_retry_backoff (suc e.fails);
}

-- `recordRewardExternalSuccess`
unfoldable pub record_reward_external_success : ℕ → Time → List External → List External
unfolding update_at
record_reward_external_success i now = update_at i (succeeded now)

-- `recordRewardExternalFailure`
unfoldable pub record_reward_external_failure : ℕ → Time → List External → List External
unfolding update_at
record_reward_external_failure i now = update_at i (failed now)

-- `fmt.Sprintf("external_%d", i+1)`; there are at most two public nodes.
unfoldable pub external_name : ℕ → String
external_name zero = "external_1"
external_name (suc i) = "external_2"

-- The four comparisons of `confirmRewardAnomaly`.
unfoldable pub is_match : RewardObservation → RewardObservation → Bool
is_match x y =
    x.block_hash =? y.block_hash
    && (x.expected == y.expected && (x.credited == y.credited && x.verification =? y.verification))

-- Exactly one report, and the very same.
unfoldable pub is_single_match : List RewardObservation → RewardObservation → Bool
unfolding is_match
is_single_match [] y = false
is_single_match (x ∷ []) y = is_match x y
is_single_match (x ∷ z ∷ xs) y = false

unfoldable pub agrees : Result RewardScan → RewardObservation → Bool
unfolding is_single_match
agrees (err e) y = false
agrees (ok scan) y = is_single_match scan.observations y

unfoldable pub counted : ℕ → RewardObservation → RewardObservation
unfolding external_name put
counted i y = record y {
  source_count = suc y.source_count;
  evidence = put (external_name i) "matched" y.evidence;
}

unfoldable pub recorded : ℕ → Time → Result RewardScan → List External → List External
unfolding record_reward_external_success record_reward_external_failure
recorded i now (ok scan) es = record_reward_external_success i now es
recorded i now (err e) es = record_reward_external_failure i now es

-- One round of the loop: `answer` is what the node reports of the observation's block.
unfoldable pub confirm_step :
    ℕ
    → Time
    → Result RewardScan
    → List External × RewardObservation
    → List External × RewardObservation
unfolding reward_external_ready agrees recorded counted
confirm_step i now answer (es, y) =
    if reward_external_ready i now es
    then (recorded i now answer es, if agrees answer y then counted i y else y)
    else (es, y)

-- `confirmRewardAnomaly`, with `n` of the nodes left, from the one at `i` on. `ask` gives what each
-- node answers on the block, and `now` is the time that the function reads first.
unfoldable pub confirm_reward_anomaly :
    ℕ
    → ℕ
    → Time
    → (ℕ → Result RewardScan)
    → List External × RewardObservation
    → List External × RewardObservation
unfolding confirm_step
confirm_reward_anomaly i zero now ask s = s
confirm_reward_anomaly i (suc n) now ask s =
    confirm_reward_anomaly (suc i) n now ask (confirm_step i now (ask i) s)
