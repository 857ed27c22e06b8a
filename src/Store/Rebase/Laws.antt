-- ===== src/Store/Rebase/Laws.antt =====
-- What an acknowledgement of pruned history does, and does not do.
use collator.Prelude.{
  ◌+◌, ℤ, pos, pos_part, neg_part, ◌<ℤ◌, eqb_ℤ, eq_of_parts, add64_parts, sub64_parts, IsInt64,
  Time, [], ◌∷◌, ◌++◌, Bool, true, false, ◌&&◌, ◌||◌, some, String, ◌=?◌, ◌≡◌, refl, ap, ◌∙◌, arith,
}
use collator.Model.{reject, reject-ok, Returns, >>=-Returns_eq, RewardOverview, RewardHistoryGap}
use collator.Store.{
  Db, AuditRow, Faults, new_id, begin, select_state, decode_payload, insert_audit, update_state,
  commit, state_row, conflict_unless, put,
}
use collator.Store.Scan.{Atomic, transaction-Atomic, state_row_lem, conflict_unless_lem}
use collator.Store.Rebase.{
  RewardGapRebase, RewardGapApproval, planned, rebased, audit_row, trimmed, is_bad_rebase,
  rebase_body, acknowledge_pruned_reward_gap,
}

-- What a committed acknowledgement did.
pub record Rebased (db : Db) (expected baseline finalized : ℤ) (approval : RewardGapApproval)
    (db' : Db) (r : RewardGapRebase) : Type 0 where
  pub approved : ((approval.actor =? "") ≡ false) × ((approval.reason =? "") ≡ false)
  pub from_cursor :
      (overview : RewardOverview) × (db.monitor_state ≡ some (expected, overview))
      × (overview.last_scanned_block ≡ expected)
  pub to_cursor :
      (overview : RewardOverview) × (db'.monitor_state ≡ some (baseline, overview))
      × (overview.last_scanned_block ≡ baseline)
      × ((gap : RewardHistoryGap) × (overview.last_history_gap ≡ some gap)
          × (gap.from_block ≡ r.from_block)
          × (gap.through_block ≡ r.through_block)
          × (gap.history_recovered ≡ false))
  pub range : (pos 0 <ℤ expected) × (expected <ℤ baseline)
  pub skipped :
      pos_part r.from_block + neg_part expected ≡ neg_part r.from_block + pos_part expected + 1
  pub through : r.through_block ≡ baseline
  pub window : pos_part finalized + neg_part baseline ≡ neg_part finalized + pos_part baseline + 64
  pub no_events : db'.events ≡ db.events
  pub logged :
      (row : AuditRow) × (db'.audits ≡ db.audits ++ row ∷ [])
      × (row.actor ≡ approval.actor)
      × (row.result ≡ "acknowledged")

range_lem :
    (expected baseline finalized : ℤ)
    → pos 0 <ℤ finalized
    → IsInt64 finalized
    → IsInt64 baseline
    → is_bad_rebase expected baseline finalized ≡ false
    → (pos 0 <ℤ expected)
      × (expected <ℤ baseline)
      × (pos_part finalized + neg_part baseline ≡ neg_part finalized + pos_part baseline + 64)
unfolding is_bad_rebase
range_lem expected baseline finalized p i j h = ground (arith, sub64_parts finalized baseline)

either_false : (a b : Bool) → (a || b) ≡ false → (a ≡ false) × (b ≡ false)
either_false a b h = ground arith

both_true : (a b : Bool) → (a && b) ≡ true → (a ≡ true) × (b ≡ true)
both_true a b h = ground arith

committed :
    (now : Time) (id : String) (db : Db) (expected baseline finalized : ℤ)
    (approval : RewardGapApproval) (row : ℤ × RewardOverview)
    → (pos 0 <ℤ expected)
      × (expected <ℤ baseline)
      × (pos_part finalized + neg_part baseline ≡ neg_part finalized + pos_part baseline + 64)
    → ((approval.actor =? "") ≡ false) × ((approval.reason =? "") ≡ false)
    → db.monitor_state ≡ some row
    → (eqb_ℤ row.0 expected ≡ true) × (eqb_ℤ row.1.last_scanned_block expected ≡ true)
    → IsInt64 finalized
    → IsInt64 baseline
    → let r = planned expected baseline finalized id in
      Rebased db expected baseline finalized approval
        (record db {
          monitor_state = some (baseline, rebased now r approval.actor row.1);
          audits = db.audits ++ audit_row r approval ∷ [];
        })
        r
unfolding put
committed now id db expected baseline finalized approval (current, overview) range named state same
      i j =
    let here : current ≡ expected = eq_of_parts current expected (ground arith) in
    record {
      approved = named;
      from_cursor = (
        overview,
        state ∙ ap (λ t. some (t, overview)) here,
        eq_of_parts overview.last_scanned_block expected (ground arith),
      );
      to_cursor = (_, refl, refl, (_, refl, refl, refl, refl));
      range = (range.0, range.1);
      skipped = omega (arith, add64_parts expected (pos 1));
      through = refl;
      window = range.2;
      no_events = refl;
      logged = (_, refl, refl, refl);
    }

rebase_body-Rebased :
    (fail : Faults) (now : Time) (id : String) (db : Db) (expected baseline finalized : ℤ)
    (approval : RewardGapApproval)
    → pos 0 <ℤ finalized
    → IsInt64 finalized
    → IsInt64 baseline
    → Returns
        (λ s. Rebased db expected baseline finalized approval s.0 s.1)
        (rebase_body fail now id db expected baseline finalized approval)
unfolding rebase_body
rebase_body-Rebased fail now id db expected baseline finalized approval p i j =
    let P : Db × RewardGapRebase → Type 0 =
      λ s. Rebased db expected baseline finalized approval s.0 s.1 in
    >>=-Returns_eq P (reject (is_bad_rebase expected baseline finalized) _) _ λ _ fine.
      >>=-Returns_eq P (reject (approval.actor =? "" || approval.reason =? "") _) _ λ _ named.
        >>=-Returns_eq P (fail new_id) _ λ _ _. >>=-Returns_eq P (fail begin) _ λ _ _.
          >>=-Returns_eq P (fail select_state) _ λ _ _.
            >>=-Returns_eq P (state_row db.monitor_state) _ λ row e.
              >>=-Returns_eq P (fail decode_payload) _ λ _ _.
                >>=-Returns_eq P
                  (conflict_unless
                    (eqb_ℤ row.0 expected && eqb_ℤ row.1.last_scanned_block expected))
                  _
                  λ _ same. >>=-Returns_eq P (fail insert_audit) _ λ _ _.
                    >>=-Returns_eq P (fail update_state) _ λ _ _.
                      >>=-Returns_eq P (fail commit) _ λ _ _.
                        committed now id db expected baseline finalized approval row
                          (range_lem expected baseline finalized p i j (reject-ok _ _ fine))
                          (either_false _ _ (reject-ok _ _ named))
                          (state_row_lem db.monitor_state e)
                          (both_true _ _ (conflict_unless_lem _ same)) i j

-- Whatever the database answers to each statement, and for a positive finalized height: an
-- acknowledgement either fails and leaves every table as it was, or it was named and reasoned and
-- the cursor, in the column and in the payload, stood at the one expected. Then the cursor is moved
-- up to the baseline, 64 blocks below the finalized height. The gap that is stored begins just above
-- the old cursor, ends at the baseline and counts as not recovered; no event is added or changed;
-- and one row is added to the audit log, in the name of the actor.
pub acknowledge-Atomic :
    (fail : Faults) (now : Time) (id : String) (db : Db) (expected baseline finalized : ℤ)
    (approval : RewardGapApproval)
    → pos 0 <ℤ finalized
    → IsInt64 finalized
    → IsInt64 baseline
    → Atomic db
        (Rebased db expected baseline finalized (trimmed approval))
        (acknowledge_pruned_reward_gap fail now id db expected baseline finalized approval)
unfolding acknowledge_pruned_reward_gap
acknowledge-Atomic fail now id db expected baseline finalized approval p i j =
    transaction-Atomic db (Rebased db expected baseline finalized (trimmed approval)) _
      (rebase_body-Rebased fail now id db expected baseline finalized (trimmed approval) p i j)
