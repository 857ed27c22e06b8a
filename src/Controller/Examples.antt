-- ===== src/Controller/Examples.antt =====
-- Tests of the controller.
use collator.Prelude.{
  zero, suc, ℕ, second, ◌+◌, ◌*◌, ◌<◌, ◌≤◌, ℤ, pos, ◌<ℤ◌, ◌≤ℤ◌, add64, minute, List, [], ◌∷◌, true,
  false, none, some, ◌≡◌, refl, arith, All, ◌⊎◌, ◌↔◌, leb, ltb_ℤ, if◌then◌else◌,
}
use collator.Model.{plain, Result, ok, err, RewardScan, RewardSnapshot}
use collator.Model.Samples.{sample_rewards, local_scan}
use collator.Store.{Db, Faults, validate_cursor_transition}
use collator.Store.Scan.{Atomic}
use collator.Store.Rebase.{RewardGapApproval}
use collator.Controller.Backoff.{
  reward_retry_backoff, reward_scan_retry_backoff, reward_scan_interval, backoff_bounds,
}
use collator.Controller.Validate.{validate_local_reward_scan, Acceptable, Fresh, validate_iff}
use collator.Controller.Externals.{External}
use collator.Controller.History.{
  ScanState, Dependencies, Outcome, reward_scan_end, scan_local_reward_history,
}
use collator.Controller.History.Bounds.{reward_scan_end-bounds}
use collator.Controller.History.Safety.{Idle, Ended}
use collator.Controller.History.Steps.{scan_history-Step}
use collator.Controller.Gap.{acknowledge_gap}
use collator.Controller.Gap.Granted.{Granted, acknowledge_gap-Granted}
use collator.Controller.Recovery.{Round, verify_recovery, Paced, Grounds, verify_recovery_ends}

abbrev works : Faults
works s = ok tt

abbrev tables : Db
tables = record { monitor_state = some (pos 100, sample_rewards); events = []; audits = [] }

-- One public node agrees, and the other one does not answer.
abbrev ask : ℕ → Result RewardScan
ask zero = ok (record local_scan { source = "external_1" })
ask (suc i) = err (plain "timeout")

abbrev unasked : External
unasked = record { healthy = false; fails = 0; retry = 0 }

abbrev nodes : List External
nodes = unasked ∷ unasked ∷ []

abbrev state : ScanState
state = record { externals = nodes; scan_next = 0; scan_failures = 0 }

abbrev answer_scan : ℤ → ℤ → Result RewardScan
answer_scan from to = ok local_scan

abbrev deps : Dependencies
deps = record {
  scanner = some answer_scan;
  has_writer = true;
  nodes = 2;
  ask = λ block. ask;
  clock = λ block. minute;
}

backoff_bounds_example :
    (reward_retry_backoff 2 ≤ reward_retry_backoff 3)
    × (minute ≤ reward_retry_backoff 2)
    × (reward_retry_backoff 2 ≤ 15 * minute)
    × (reward_scan_retry_backoff 2 ≤ reward_scan_retry_backoff 3)
    × (reward_scan_interval ≤ reward_scan_retry_backoff 2)
    × (reward_scan_retry_backoff 2 ≤ 5 * minute)
    × ((2 < 5) ⊎ (reward_retry_backoff 2 ≡ 15 * minute))
    × ((2 < 6) ⊎ (reward_scan_retry_backoff 2 ≡ 5 * minute))
backoff_bounds_example = backoff_bounds 2 3 (omega arith)

validate_iff_example : (validate_local_reward_scan local_scan (pos 101) (pos 102) ≡ ok tt) ↔ (
    (local_scan.source ≡ "local")
    × (local_scan.from ≡ pos 101)
    × (local_scan.to ≡ pos 102)
    × All (Acceptable (pos 101) (pos 102)) local_scan.observations
    × Fresh [] local_scan.observations)
validate_iff_example = validate_iff local_scan (pos 101) (pos 102)

reward_scan_end-bounds_example :
    let end = reward_scan_end (pos 100) (pos 300) in
    (pos 100 <ℤ end)
    × (end ≤ℤ pos 300)
    × (validate_cursor_transition (pos 100) end ≡ ok tt)
    × (((300 ≤ 100 + 16) × (end ≡ pos 300))
        ⊎ ((100 + 16 < 300) × (300 ≤ 100 + 64) × (end ≡ pos (100 + 16)))
        ⊎ ((100 + 64 < 300) × (300 ≤ 100 + 128) × (end ≡ pos 300))
        ⊎ ((100 + 128 < 300) × (end ≡ pos (100 + 128))))
reward_scan_end-bounds_example =
    reward_scan_end-bounds 100 300 (omega arith) (omega arith) (omega arith)

abbrev outcome : Outcome
outcome = scan_local_reward_history works deps minute state tables sample_rewards (pos 102)

scan_history-Step_example :
    Idle minute state tables sample_rewards (pos 102) outcome
    ⊎ Ended deps minute state tables sample_rewards
        (add64 (pos 100) (pos 1))
        (reward_scan_end (pos 100) (pos 102))
        outcome
scan_history-Step_example =
    scan_history-Step works deps minute state tables sample_rewards (pos 102) (omega arith)

abbrev snapshot : RewardSnapshot
snapshot = record {
  address = "wallet";
  finalized_block = pos 1000;
  finalized_hash = "head";
  last_authored_block = pos 990;
  last_authored_at = minute;
  wallet_free = 15;
  wallet_reserved = 0;
  active_session = true;
  validator_count = 3;
  spec_version = pos 2500;
  schema_ok = true;
  error = "";
  source = "local";
  observed_at = minute;
}

abbrev approval : RewardGapApproval
approval = record { actor = "operator"; reason = "state was pruned"; action_id = "" }

-- The history below block 500 is gone.
abbrev pruned_scan : ℤ → ℤ → Result RewardScan
pruned_scan from to =
    if ltb_ℤ from (pos 500)
    then err (plain "State already discarded for block")
    else ok (record {
      from = from;
      to = to;
      last_authored = pos 930;
      observations = [];
      source = "local";
    })

acknowledge_gap-Granted_example :
    Atomic tables
      (Granted (ok snapshot) pruned_scan tables (pos 100) approval)
      (acknowledge_gap works minute "id" (ok snapshot) pruned_scan tables (pos 100) approval)
acknowledge_gap-Granted_example =
    acknowledge_gap-Granted works minute "id" (ok snapshot) pruned_scan tables (pos 100) approval
      (omega arith, omega arith)

-- The service answers from the third round on, twenty seconds apart, and a block is finalized in
-- the fifth.
abbrev rounds : ℕ → Round
rounds i = record {
  head = i * (20 * second);
  service_state = if leb i 1 then none else some "active";
  at_deadline = i * (20 * second) + second;
  finalized = some (pos (if leb i 3 then 500 else 501));
  cancelled = false;
}

recovers : verify_recovery rounds 0 0 (pos 500) ≡ some (ok tt)
unfolding verify_recovery
recovers = refl

rounds-Paced : Paced rounds 0
rounds-Paced = record { start = omega arith; paced = λ i. omega arith }

verify_recovery_ends_example :
    (v : Result (Unit {0})) × (verify_recovery rounds 0 0 (pos 500) ≡ some v)
    × (k : ℕ) × (k ≤ 40)
    × Grounds rounds (0 + 2 * minute) (0 + 10 * minute) (pos 500) k v
verify_recovery_ends_example = verify_recovery_ends rounds 0 0 (pos 500) rounds-Paced
