-- ===== src/Controller/Gap.antt =====
-- The way out of pruned history in cmd/controller/main.go: the recovery that the controller asks
-- for, and the command by which an operator grants it. The agent's two calls are parameters.
pub mod Granted
use collator.Prelude.{
  ℕ, ◌+◌, ℤ, pos, leb_ℤ, ltb_ℤ, min_ℤ, add64, sub64, Time, Bool, true, false, not, ◌&&◌, ◌||◌,
  if◌then◌else◌, Option, none, some, String, ◌=?◌, codes, lower, contains,
}
use collator.Model.{
  Error, plain, wrapped, error_text, Result, ok, err, ◌>>=◌, ◌>>◌, reject, RewardRecovery,
  RewardSnapshot, RewardScan,
}
use collator.Store.{Db, Faults, retained_window}
use collator.Store.Rebase.{RewardGapRebase, RewardGapApproval, acknowledge_pruned_reward_gap}
use collator.Controller.Validate.{validate_local_reward_scan}
use collator.Controller.History.{reward_scan_chunk_size}

-- `isPrunedRewardStateError` of an error that is there.
unfoldable pub is_pruned_reward_state_error : Error → Bool
unfolding error_text lower contains codes
is_pruned_reward_state_error e = contains (codes "state already discarded") (lower (error_text e))

-- `rewardRecoveryForScanError`
unfoldable pub reward_recovery_for_scan_error : ℤ → ℤ → Error → Option RewardRecovery
unfolding is_pruned_reward_state_error
reward_recovery_for_scan_error cursor finalized e =
    if not (is_pruned_reward_state_error e)
      || (leb_ℤ cursor (pos 0) || leb_ℤ (sub64 finalized cursor) retained_window)
    then none
    else some (record {
      required = true;
      reason = "local_state_pruned";
      expected_cursor = cursor;
      candidate_resume_from_block = add64 (sub64 finalized retained_window) (pos 1);
    })

unfoldable pub is_bad_snapshot : RewardSnapshot → Bool
is_bad_snapshot s =
    not (s.source =? "local")
    || (not s.schema_ok || (leb_ℤ s.finalized_block (pos 0) || s.finalized_hash =? ""))

-- The scan of the history that should be gone.
unfoldable pub must_be_pruned : Result RewardScan → Result (Unit {0})
unfolding is_pruned_reward_state_error
must_be_pruned (ok scan) =
    err (plain "reward history is readable; acknowledgement is not permitted")
must_be_pruned (err e) =
    if is_pruned_reward_state_error e
    then ok tt
    else err (wrapped "reward history failed for a reason other than local state pruning" e)

-- `fmt.Errorf("...: %w", err)` on an error.
unfoldable pub with_context {ℓ} : {A : Type ℓ} → String → Result A → Result A
with_context s (ok a) = ok a
with_context s (err e) = err (wrapped s e)

unfoldable pub discarded_end : ℤ → ℤ → ℤ
discarded_end expected finalized = min_ℤ (add64 expected reward_scan_chunk_size) finalized

unfoldable pub probe_end : ℤ → ℤ → ℤ
probe_end from finalized = min_ℤ (sub64 (add64 from reward_scan_chunk_size) (pos 1)) finalized

-- What `acknowledgePrunedRewardGap` settles before it writes: the baseline and the finalized height.
unfoldable pub gap_checks : Result RewardSnapshot → (ℤ → ℤ → Result RewardScan) → ℤ → Result (ℤ × ℤ)
unfolding is_bad_snapshot must_be_pruned with_context discarded_end probe_end
    validate_local_reward_scan
gap_checks snapshot_call scan_call expected = do
  reject (leb_ℤ expected (pos 0)) (plain "invalid expected reward cursor")
  snapshot ← with_context "local finalized reward snapshot" snapshot_call
  reject (is_bad_snapshot snapshot) (plain "invalid local finalized reward snapshot")
  let finalized = snapshot.finalized_block
  reject (leb_ℤ (sub64 finalized expected) retained_window)
      (plain "reward cursor is still within the retained recovery window")
  must_be_pruned (scan_call (add64 expected (pos 1)) (discarded_end expected finalized))
  let baseline = sub64 finalized retained_window
  let probe_from = add64 baseline (pos 1)
  let probe_to = probe_end probe_from finalized
  probe ← with_context "retained local reward scan" (scan_call probe_from probe_to)
  with_context "retained local reward scan validation"
      (validate_local_reward_scan probe probe_from probe_to)
  ok (baseline, finalized)

-- The checks, and then the store's transaction.
unfoldable pub acknowledge_after :
    Faults
    → Time
    → String
    → Db
    → ℤ
    → RewardGapApproval
    → Result (ℤ × ℤ)
    → Db × Result RewardGapRebase
unfolding acknowledge_pruned_reward_gap
acknowledge_after fail now id db expected approval (err e) = (db, err e)
acknowledge_after fail now id db expected approval (ok (baseline, finalized)) =
    acknowledge_pruned_reward_gap fail now id db expected baseline finalized approval

-- `acknowledgePrunedRewardGap` of the controller.
unfoldable pub acknowledge_gap :
    Faults
    → Time
    → String
    → Result RewardSnapshot
    → (ℤ → ℤ → Result RewardScan)
    → Db
    → ℤ
    → RewardGapApproval
    → Db × Result RewardGapRebase
unfolding gap_checks acknowledge_after
acknowledge_gap fail now id snapshot_call scan_call db expected approval =
    acknowledge_after fail now id db expected approval (gap_checks snapshot_call scan_call expected)
