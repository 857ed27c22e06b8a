-- ===== src/Controller/History.antt =====
-- `scanLocalRewardHistory` of cmd/controller/main.go: one bounded step of the scan of the reward
-- history. The agent's scanner and the database's writer may be missing, as the source's nil checks
-- have it. The public nodes and the clock are functions of the block that is being confirmed.
pub mod Bounds
pub mod Safety
pub mod Steps
pub mod Progress
use collator.Prelude.{
  ℕ, zero, suc, ◌+◌, ℤ, pos, ltb_ℤ, leb_ℤ, min_ℤ, add64, sub64, Time, before, after, is_zero, List,
  [], ◌∷◌, Bool, true, false, not, ◌&&◌, ◌||◌, if◌then◌else◌, Option, none, some, String, ◌=?◌,
}
use collator.Model.{
  Error, plain, Result, ok, err, no_gap, catching_up, RewardOverview, RewardObservation, RewardScan,
}
use collator.Store.{Db, Faults, retained_window, max_transition, apply_reward_scan}
use collator.Controller.Backoff.{reward_scan_interval, reward_scan_retry_backoff}
use collator.Controller.Validate.{validate_local_reward_scan}
use collator.Controller.Externals.{External, confirm_reward_anomaly}

abbrev pub reward_scan_chunk_size : ℤ
reward_scan_chunk_size = pos 16

-- The fields of the controller that the scan writes; the counts of failures do not overflow.
pub record ScanState : Type 0 where
  pub externals : List External
  pub scan_next : Time
  pub scan_failures : ℕ

-- `c.rewardScanner` and `c.rewardWriter`, the `nodes` public nodes, what each answers on a block,
-- and the time at which the confirmation of a block starts.
pub record Dependencies : Type 0 where
  pub scanner : Option (ℤ → ℤ → Result RewardScan)
  pub has_writer : Bool
  pub nodes : ℕ
  pub ask : ℤ → ℕ → Result RewardScan
  pub clock : ℤ → Time

-- `rewardScanEnd`
unfoldable pub reward_scan_end : ℤ → ℤ → ℤ
reward_scan_end cursor finalized =
    let lag = sub64 finalized cursor in
    let chunk =
      if ltb_ℤ retained_window lag then min_ℤ lag max_transition else reward_scan_chunk_size in
    min_ℤ (add64 cursor chunk) finalized

-- `failRewardScan`
unfoldable pub fail_reward_scan : Time → ScanState → ScanState
fail_reward_scan now c = record c {
  scan_failures = suc c.scan_failures;
  scan_next = now + reward_scan_retry_backoff (suc c.scan_failures);
}

-- `Verification == "insufficient" || Verification == "pot_empty"`
unfoldable pub is_anomaly : RewardObservation → Bool
is_anomaly x = x.verification =? "insufficient" || x.verification =? "pot_empty"

unfoldable pub advance_block : RewardObservation → RewardOverview → RewardOverview
advance_block x o =
    if ltb_ℤ o.last_authored_block x.block_number
    then record o { last_authored_block = x.block_number }
    else o

unfoldable pub advance_reward : RewardObservation → RewardOverview → RewardOverview
advance_reward x o =
    if after x.authored_at o.last_reward_at
    then record o { last_reward_at = x.authored_at; last_reward = x.credited }
    else o

-- One round of the loop over the observations; the observation is changed in place.
unfoldable pub confirm_one :
    Dependencies → List External → RewardObservation → List External × RewardObservation
unfolding is_anomaly confirm_reward_anomaly
confirm_one d es x =
    if is_anomaly x
    then confirm_reward_anomaly zero d.nodes (d.clock x.block_number) (d.ask x.block_number) (es, x)
    else (es, x)

unfoldable pub settle :
    Dependencies
    → List External
    → RewardOverview
    → List RewardObservation
    → List External × RewardOverview × List RewardObservation
unfolding confirm_one advance_block advance_reward
settle d es o [] = (es, o, [])
settle d es o (x ∷ xs) =
    let (es1, y) = confirm_one d es x in
    let (es2, o', ys) = settle d es1 (advance_reward y (advance_block y o)) xs in (es2, o', y ∷ ys)

-- `next.Gap`
unfoldable pub moved : ℤ → ℤ → RewardOverview → RewardOverview
moved to finalized o = record o {
  last_scanned_block = to;
  gap = if ltb_ℤ to finalized then catching_up to else no_gap;
}

-- What one call leaves and returns.
pub record Outcome : Type 0 where
  pub state : ScanState
  pub db : Db
  pub overview : RewardOverview
  pub attempted : Bool
  pub error : Option Error

abbrev pub broken : Time → ScanState → Db → RewardOverview → Error → Outcome
broken now c db o e = record {
  state = fail_reward_scan now c;
  db = db;
  overview = o;
  attempted = true;
  error = some e;
}

-- After `ApplyRewardScan`.
unfoldable pub committed :
    Time → ScanState → RewardOverview → RewardOverview → Db × Result (Unit {0}) → Outcome
committed now c previous next (db, err e) = broken now c db previous e
committed now c previous next (db, ok _) = record {
  state = record c { scan_failures = 0; scan_next = now + reward_scan_interval };
  db = db;
  overview = next;
  attempted = true;
  error = none;
}

-- The scan is read and checked: the anomalies are confirmed and the whole is written.
unfoldable pub settle_and_write :
    Faults → Dependencies → Time → ScanState → Db → RewardOverview → ℤ → ℤ → RewardScan → Outcome
unfolding settle moved apply_reward_scan committed
settle_and_write fail d now c db previous to finalized scan =
    let (es, o, observations) =
      settle d c.externals (record previous { recovery = none }) scan.observations in
    let next = moved to finalized o in
    committed now (record c { externals = es }) previous next
      (apply_reward_scan fail now db previous.last_scanned_block next observations)

-- What follows the check.
unfoldable pub write_if_valid :
    Faults
    → Dependencies
    → Time
    → ScanState
    → Db
    → RewardOverview
    → ℤ
    → ℤ
    → RewardScan
    → Result (Unit {0})
    → Outcome
unfolding settle_and_write
write_if_valid fail d now c db previous to finalized scan (err e) = broken now c db previous e
write_if_valid fail d now c db previous to finalized scan (ok _) =
    settle_and_write fail d now c db previous to finalized scan

unfoldable pub check_and_write :
    Faults
    → Dependencies
    → Time
    → ScanState
    → Db
    → RewardOverview
    → ℤ
    → ℤ
    → ℤ
    → Result RewardScan
    → Outcome
unfolding write_if_valid validate_local_reward_scan
check_and_write fail d now c db previous from to finalized (err e) = broken now c db previous e
check_and_write fail d now c db previous from to finalized (ok scan) =
    write_if_valid fail d now c db previous to finalized scan
      (validate_local_reward_scan scan from to)

-- The calls of the scanner, where it and the writer are there.
unfoldable pub attempt_scan :
    Faults
    → Dependencies
    → Time
    → ScanState
    → Db
    → RewardOverview
    → ℤ
    → ℤ
    → ℤ
    → Option (ℤ → ℤ → Result RewardScan)
    → Bool
    → Outcome
unfolding check_and_write
attempt_scan fail d now c db previous from to finalized (some scanner) true =
    check_and_write fail d now c db previous from to finalized (scanner from to)
attempt_scan fail d now c db previous from to finalized (some scanner) false =
    broken now c db previous (plain "reward history dependency unavailable")
attempt_scan fail d now c db previous from to finalized none w =
    broken now c db previous (plain "reward history dependency unavailable")

-- Nothing to scan: no cursor yet, no new finalized block, or a wait that has not passed.
unfoldable pub is_idle : Time → ScanState → RewardOverview → ℤ → Bool
is_idle now c previous finalized =
    leb_ℤ previous.last_scanned_block (pos 0)
    || (leb_ℤ finalized previous.last_scanned_block
        || not (is_zero c.scan_next) && before now c.scan_next)

unfoldable pub scan_local_reward_history :
    Faults → Dependencies → Time → ScanState → Db → RewardOverview → ℤ → Outcome
unfolding is_idle reward_scan_end attempt_scan
scan_local_reward_history fail d now c db previous finalized =
    if is_idle now c previous finalized
    then record { state = c; db = db; overview = previous; attempted = false; error = none }
    else attempt_scan fail d now c db previous (add64 previous.last_scanned_block (pos 1))
        (reward_scan_end previous.last_scanned_block finalized) finalized d.scanner d.has_writer
