-- ===== src/Store/Rebase.antt =====
-- `AcknowledgePrunedRewardGap`: an operator lets the cursor skip history that the node has lost.
pub mod Laws
use collator.Prelude.{
  ℕ, ◌+◌, ◌≤◌, ◌<◌, ℤ, pos, pos_part, neg_part, ◌≤ℤ◌, ◌<ℤ◌, leb_ℤ, eqb_ℤ, eq_of_parts, add64, sub64,
  add64_parts, sub64_parts, two63, IsInt64, Time, List, [], ◌∷◌, ◌++◌, Bool, true, false, not, ◌&&◌,
  ◌||◌, if◌then◌else◌, Option, none, some, String, ◌=?◌, trim_space, ◌≡◌, refl, sym, ap, ◌∙◌, arith,
}
use collator.Model.{
  Error, plain, Result, ok, err, ◌>>=◌, ◌>>◌, reject, Returns, >>=-Returns_eq, Value, num, text,
  flag, Evidence, RewardOverview, RewardHistoryGap, acknowledged_pruned,
}
use collator.Store.{
  Db, AuditRow, Faults, Site, new_id, begin, select_state, decode_payload, insert_audit,
  update_state, commit, transaction, retained_window, state_row, conflict_unless, put,
}
use collator.Store.Rows.{UpTo}
use collator.Store.Scan.{
  Atomic, transaction-Atomic, WellFormed, UpTo-mono, Atomic-WellFormed, state_row_lem,
  conflict_unless_lem,
}

pub record RewardGapRebase : Type 0 where
  pub audit_id : String
  pub from_block : ℤ
  pub through_block : ℤ
  pub resume_from_block : ℤ
  pub snapshot_finalized_block : ℤ

pub record RewardGapApproval : Type 0 where
  pub actor : String
  pub reason : String
  pub action_id : String

-- `RewardGapRebase{...}` before its audit id is known.
abbrev pub planned : ℤ → ℤ → ℤ → String → RewardGapRebase
planned expected baseline finalized id = record {
  audit_id = id;
  from_block = add64 expected (pos 1);
  through_block = baseline;
  resume_from_block = add64 baseline (pos 1);
  snapshot_finalized_block = finalized;
}

-- The overview that is stored with the new cursor.
abbrev pub rebased : Time → RewardGapRebase → String → RewardOverview → RewardOverview
unfolding put
rebased now r actor overview = record overview {
  last_scanned_block = r.through_block;
  finalized_block = r.snapshot_finalized_block;
  gap = acknowledged_pruned r.from_block r.through_block r.resume_from_block;
  recovery = none;
  last_history_gap = some (record {
    from_block = r.from_block;
    through_block = r.through_block;
    resume_from_block = r.resume_from_block;
    acknowledged_at = now;
    acknowledged_by = actor;
    history_recovered = false;
  });
  sources = put "historical_gap" "acknowledged_pruned_blocks" overview.sources;
}

abbrev pub audit_row : RewardGapRebase → RewardGapApproval → AuditRow
audit_row r approval = record {
  id = r.audit_id;
  action = "reward.history_gap.acknowledge";
  actor = approval.actor;
  result = "acknowledged";
  details =
      ("authority", text "local_finalized_rpc")
      ∷ ("from_block", num r.from_block)
      ∷ ("history_recovered", flag false)
      ∷ ("reason", text "local_state_pruned")
      ∷ ("resume_from_block", num r.resume_from_block)
      ∷ ("retained_window_blocks", num retained_window)
      ∷ ("snapshot_finalized_block", num r.snapshot_finalized_block)
      ∷ ("through_block", num r.through_block)
      ∷ ("operator_reason", text approval.reason)
      ∷ (if approval.action_id =? "" then [] else ("action_id", text approval.action_id) ∷ []);
}

abbrev pub trimmed : RewardGapApproval → RewardGapApproval
trimmed a = record {
  actor = trim_space a.actor;
  reason = trim_space a.reason;
  action_id = trim_space a.action_id;
}

-- `expectedCursor <= 0 || baseline <= expectedCursor || finalized-baseline != window`
unfoldable pub is_bad_rebase : ℤ → ℤ → ℤ → Bool
is_bad_rebase expected baseline finalized =
    leb_ℤ expected (pos 0)
    || (leb_ℤ baseline expected || not (eqb_ℤ (sub64 finalized baseline) retained_window))

unfoldable pub rebase_body :
    Faults → Time → String → Db → ℤ → ℤ → ℤ → RewardGapApproval → Result (Db × RewardGapRebase)
unfolding is_bad_rebase
rebase_body fail now id db expected baseline finalized approval = do
  reject (is_bad_rebase expected baseline finalized) (plain "invalid pruned reward gap rebase")
  reject (approval.actor =? "" || approval.reason =? "")
      (plain "reward gap approval actor and reason are required")
  fail new_id
  fail begin
  fail select_state
  (current, overview) ← state_row db.monitor_state
  fail decode_payload
  conflict_unless (eqb_ℤ current expected && eqb_ℤ overview.last_scanned_block expected)
  fail insert_audit
  fail update_state
  fail commit
  let r = planned expected baseline finalized id
  ok (
    record db {
      monitor_state = some (baseline, rebased now r approval.actor overview);
      audits = db.audits ++ audit_row r approval ∷ [];
    },
    r,
  )

-- `id` is the random identifier of the audit row.
unfoldable pub acknowledge_pruned_reward_gap :
    Faults → Time → String → Db → ℤ → ℤ → ℤ → RewardGapApproval → Db × Result RewardGapRebase
unfolding rebase_body
acknowledge_pruned_reward_gap fail now id db expected baseline finalized approval =
    transaction db (rebase_body fail now id db expected baseline finalized (trimmed approval))
