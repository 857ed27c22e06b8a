-- ===== src/Controller/Status.antt =====
-- The status of the rewards in cmd/controller/main.go, and the signals that follow from it. The rows
-- that the database answers are a parameter; a signal's title is left out, and so are
-- the gap and the map of the sources in the evidence of a degraded monitor.
pub mod Justified
use collator.Prelude.{
  ℕ, zero, suc, ◌+◌, ◌-◌, ◌*◌, ◌/◌, ℤ, pos, negsuc, pos_part, leb_ℤ, ltb_ℤ, wrap64, Time, second,
  minute, is_zero, since, List, [], ◌∷◌, length, Bool, true, false, not, ◌&&◌, ◌||◌, ltb, leb, ◌==◌,
  if◌then◌else◌, Option, none, some, String, ◌=?◌,
}
use collator.Model.{
  Error, error_text, Result, ok, err, Gap, no_gap, unreadable, scan_failed, behind_cursor,
  catching_up, acknowledged_pruned, Value, num, text, flag, Evidence, Overview, RewardOverview,
  RewardObservation,
}
use collator.Rules.{Signal}

-- `x.Gap != ""`
unfoldable pub has_gap : Gap → Bool
unfolding error_text
has_gap no_gap = false
has_gap (unreadable e) = not (length (error_text e) == 0)
has_gap (scan_failed a b e) = true
has_gap (behind_cursor a b) = true
has_gap (catching_up a) = true
has_gap (acknowledged_pruned a b c) = true

-- `!x.SchemaOK || x.Gap != "" || x.Quorum < 2`
unfoldable pub is_degraded : RewardOverview → Bool
unfolding has_gap
is_degraded x = not x.schema_ok || (has_gap x.gap || ltb x.quorum 2)

unfoldable pub is_missing : RewardOverview → Bool
is_missing x = not x.active_session && leb 2 x.inactive_confirmations

-- `time.Duration(x.SecondsSinceReward) * time.Second`
unfoldable pub age_of : ℤ → ℤ
unfolding wrap64
age_of (pos n) = wrap64 (pos (n * second))
age_of (negsuc n) = wrap64 (negsuc (suc n * second - 1))

-- `rewardStatus`, with the two limits in nanoseconds.
unfoldable pub reward_status : RewardOverview → ℕ → ℕ → String
unfolding is_degraded is_missing age_of
reward_status x warning_after critical_after =
    if is_degraded x
    then "degraded"
    else (if is_missing x
        then "critical"
        else (if not x.active_session
            then "verifying"
            else (if leb_ℤ (pos critical_after) (age_of x.seconds_since_reward)
                then "critical"
                else (if leb_ℤ (pos warning_after) (age_of x.seconds_since_reward)
                    then "warning"
                    else "healthy"))))

-- An anomaly that another node has seen too.
unfoldable pub is_confirmed_anomaly : RewardObservation → Bool
is_confirmed_anomaly x =
    (x.verification =? "insufficient" || x.verification =? "pot_empty") && leb 2 x.source_count

-- The first one of the page.
unfoldable pub first_anomaly : List RewardObservation → Option RewardObservation
unfolding is_confirmed_anomaly
first_anomaly [] = none
first_anomaly (x ∷ xs) =
    let rest = first_anomaly xs in if is_confirmed_anomaly x then some x else rest

abbrev pub page_of : Result (List RewardObservation) → List RewardObservation
page_of (ok items) = items
page_of (err e) = []

abbrev pub reward_signal : String → String → Evidence → Signal
reward_signal fingerprint severity evidence = record {
  fingerprint = fingerprint;
  severity = severity;
  auto_candidate = false;
  evidence = evidence;
}

abbrev pub silence : RewardOverview → String → Signal
silence x severity = reward_signal "reward-silence" severity (
    ("last_authored_block", num x.last_authored_block)
    ∷ ("seconds", num x.seconds_since_reward)
    ∷ ("blocks_since", num x.blocks_since_authored)
    ∷ [])

abbrev pub mismatch : RewardObservation → Signal
mismatch item = reward_signal "reward-credit-mismatch" "critical" (
    ("block", num item.block_number)
    ∷ ("expected_planck", num (pos item.expected))
    ∷ ("credited_planck", num (pos item.credited))
    ∷ ("verification", text item.verification)
    ∷ ("sources", num (pos item.source_count))
    ∷ [])

abbrev pub degraded : RewardOverview → Signal
degraded x =
    reward_signal "reward-monitor-degraded" "warning"
      (("schema_ok", flag x.schema_ok) ∷ ("quorum", num (pos x.quorum)) ∷ [])

abbrev pub missing : RewardOverview → Signal
missing x = reward_signal "reward-active-set-missing" "critical" (
    ("address", text x.address)
    ∷ ("validator_count", num (pos x.validator_count))
    ∷ ("quorum", num (pos x.quorum))
    ∷ [])

-- The chain itself does not move, so that no reward is to be expected.
unfoldable pub is_chain_held : Overview → Bool → Bool
is_chain_held state progressing =
    not (state.node.service_state =? "active")
    || (not (state.chain.status =? "healthy") || not progressing)

-- By the status that the overview carries.
unfoldable pub silence_signals : RewardOverview → List Signal
silence_signals x =
    if x.status =? "critical"
    then silence x "critical" ∷ []
    else (if x.status =? "warning" then silence x "warning" ∷ [] else [])

-- The signals, and whether the open incidents are told of the risk.
unfoldable pub chain_signals : RewardOverview → Overview → Bool → ℕ → List Signal × Bool
unfolding is_chain_held silence_signals
chain_signals x state progressing warning_after =
    if is_chain_held state progressing
    then ([], leb_ℤ (pos (warning_after / second)) x.seconds_since_reward)
    else (silence_signals x, false)

unfoldable pub credit_signals :
    RewardOverview → Overview → Bool → ℕ → Option RewardObservation → List Signal × Bool
unfolding chain_signals
credit_signals x state progressing warning_after (some item) = (mismatch item ∷ [], false)
credit_signals x state progressing warning_after none =
    chain_signals x state progressing warning_after

-- `rewardSignals`
unfoldable pub reward_signals :
    RewardOverview → Overview → Result (List RewardObservation) → Bool → ℕ → List Signal × Bool
unfolding is_degraded is_missing first_anomaly credit_signals
reward_signals x state page progressing warning_after =
    if is_degraded x
    then (degraded x ∷ [], false)
    else (if is_missing x
        then (missing x ∷ [], false)
        else credit_signals x state progressing warning_after (first_anomaly (page_of page)))

-- A public node's height that the controller follows: `externalOK` and `rewardChainProgress`.
pub record Progress : Type 0 where
  pub healthy : Bool
  pub moved_at : Time

-- `rewardChainProgressing`
unfoldable pub reward_chain_progressing : Time → List Progress → Bool
unfolding since
reward_chain_progressing now [] = true
reward_chain_progressing now (p ∷ ps) =
    let rest = reward_chain_progressing now ps in
    if not p.healthy || (is_zero p.moved_at || ltb_ℤ (pos (2 * minute)) (since now p.moved_at))
    then false
    else rest
