-- ===== src/Controller/History/Steps.antt =====
-- Every way in which one step of the scan ends.
use collator.Prelude.{
  ℤ, pos, negsuc, ◌<ℤ◌, add64, two63, ◌-◌, IsInt64, Time, Bool, true, false, Option, none, some,
  ◌≡◌, refl, arith, ◌⊎◌, inl, inr, Bool-cases,
}
use collator.Model.{Error, Result, ok, err, RewardOverview, RewardScan}
use collator.Store.{Db, Faults, validate_cursor_transition}
use collator.Store.Scan.{apply_reward_scan-Atomic}
use collator.Controller.Validate.{validate_local_reward_scan}
use collator.Controller.History.{
  ScanState, Dependencies, reward_scan_end, settle, moved, settle_and_write, write_if_valid,
  check_and_write, attempt_scan, is_idle, scan_local_reward_history, fail_reward_scan,
}
use collator.Controller.History.Bounds.{reward_scan_end-bounds}
use collator.Controller.History.Safety.{Idle, Failed, Advanced, Ended, committed_lem, settle_lem}

settle_and_write_lem :
    (fail : Faults) (d : Dependencies) (now : Time) (c : ScanState) (db : Db)
    (previous : RewardOverview) (to finalized : ℤ) (scan : RewardScan)
    → IsInt64 previous.last_scanned_block
    → IsInt64 to
    → let o = settle_and_write fail d now c db previous to finalized scan in
      Failed now c db previous o ⊎ Advanced d now db previous to scan o
unfolding settle_and_write moved
settle_and_write_lem fail d now c db previous to finalized scan i j =
    let start = record previous { recovery = none } in
    let s = settle d c.externals start scan.observations in
    let next = moved to finalized s.1 in
    let (same, ahead, covered) = settle_lem d c.externals start scan.observations in
    elim (committed_lem now (record c { externals = s.0 }) db previous next s.2 _
      (apply_reward_scan-Atomic fail now db previous.last_scanned_block next s.2 i j)) [
        | inl f ↦ inl (record {
          unchanged = f.unchanged;
          failures = f.failures;
          next = f.next;
          returned = f.returned;
        })
        | inr (applied, e) ↦ inr (
            rw e (record {
              written = s.2;
              claims = same;
              applied = applied;
              cursor = refl;
              ahead = (ahead.authored, ahead.rewarded);
              covered = covered;
              recovered = ahead.recovery;
              returned = (refl, refl);
              next = (refl, refl);
            }))
      ]

broken_lem :
    (now : Time) (c : ScanState) (db : Db) (previous : RewardOverview) (e : Error)
    → Failed now c db previous (record {
      state = fail_reward_scan now c;
      db = db;
      overview = previous;
      attempted = true;
      error = some e;
    })
unfolding fail_reward_scan
broken_lem now c db previous e = record {
  unchanged = (refl, refl);
  failures = refl;
  next = refl;
  returned = (refl, (e, refl));
}

attempt_lem :
    (fail : Faults) (d : Dependencies) (now : Time) (c : ScanState) (db : Db)
    (previous : RewardOverview) (from to finalized : ℤ)
    (scanner : Option (ℤ → ℤ → Result RewardScan)) (w : Bool)
    → d.scanner ≡ scanner
    → IsInt64 previous.last_scanned_block
    → IsInt64 to
    → Ended d now c db previous from to
        (attempt_scan fail d now c db previous from to finalized scanner w)
unfolding attempt_scan check_and_write write_if_valid
attempt_lem fail d now c db previous from to finalized none w e i j =
    inl (broken_lem now c db previous _)
attempt_lem fail d now c db previous from to finalized (some scanner) false e i j =
    inl (broken_lem now c db previous _)
attempt_lem fail d now c db previous from to finalized (some scanner) true e i j =
    answered (scanner from to) refl
  where
    checked :
        (scan : RewardScan) (r : Result (Unit {0}))
        → scanner from to ≡ ok scan
        → validate_local_reward_scan scan from to ≡ r
        → Ended d now c db previous from to
            (write_if_valid fail d now c db previous to finalized scan r)
    checked scan (err x) a v = inl (broken_lem now c db previous x)
    checked scan (ok _) a v =
        elim (settle_and_write_lem fail d now c db previous to finalized scan i j) [
          | inl f ↦ inl f
          | inr s ↦ inr (scan, ((scanner, e, a), v), s)
        ]

    answered :
        (r : Result RewardScan)
        → scanner from to ≡ r
        → Ended d now c db previous from to
            (check_and_write fail d now c db previous from to finalized r)
    answered (err x) a = inl (broken_lem now c db previous x)
    answered (ok scan) a = checked scan (validate_local_reward_scan scan from to) a refl

-- Where there is something to scan, the cursor is positive and below the finalized height.
pub active_lem :
    (now : Time) (c : ScanState) (previous : RewardOverview) (finalized : ℤ)
    → is_idle now c previous finalized ≡ false
    → (pos 0 <ℤ previous.last_scanned_block) × (previous.last_scanned_block <ℤ finalized)
unfolding is_idle
active_lem now c previous finalized h = ground arith

pub end_lem :
    (cursor finalized : ℤ)
    → pos 0 <ℤ cursor
    → cursor <ℤ finalized
    → finalized <ℤ pos (two63 - 128)
    → IsInt64 cursor
      × IsInt64 (reward_scan_end cursor finalized)
      × (validate_cursor_transition cursor (reward_scan_end cursor finalized) ≡ ok tt)
      × (cursor <ℤ reward_scan_end cursor finalized)
end_lem (negsuc n) finalized p q r = absurd (omega arith)
end_lem (pos n) (negsuc f) p q r = absurd (omega arith)
end_lem (pos n) (pos f) p q r =
    let (above, below, taken, _) =
      reward_scan_end-bounds n f (omega arith) (omega arith) (omega arith) in
    (ground arith, ground arith, taken, above)

-- Whatever the agent, the public nodes and the database answer, and for a finalized height 128
-- blocks below the last int64 or lower, one call of `scanLocalRewardHistory` does one of three
-- things. It does nothing, where there is nothing to scan or the wait has not passed. Or it fails:
-- then no table and nothing of the overview changes, and the wait that the count of failures gives
-- begins. Or the agent's scan of the chunk passed the check, and all of its claims, pairwise the
-- same, are written with the new overview in one transaction that found the old cursor. Then the
-- cursor is at the chunk's end, the overview knows of every block written, it has not gone back, and
-- the failures are forgotten.
pub scan_history-Step :
    (fail : Faults) (d : Dependencies) (now : Time) (c : ScanState) (db : Db)
    (previous : RewardOverview) (finalized : ℤ)
    → finalized <ℤ pos (two63 - 128)
    → let o = scan_local_reward_history fail d now c db previous finalized in
      Idle now c db previous finalized o
      ⊎ Ended d now c db previous
          (add64 previous.last_scanned_block (pos 1))
          (reward_scan_end previous.last_scanned_block finalized)
          o
unfolding scan_local_reward_history
scan_history-Step fail d now c db previous finalized h =
    elim (Bool-cases (is_idle now c previous finalized)) [
      | inl idle ↦
          rw idle
            (inl (record { idle = idle; unchanged = (refl, refl, refl); returned = (refl, refl) }))
      | inr active ↦
          let (up, ahead) = active_lem now c previous finalized active in
          let (i, j, _, _) = end_lem previous.last_scanned_block finalized up ahead h in
          rw active (
            inr
              (attempt_lem fail d now c db previous _ _ finalized d.scanner d.has_writer refl i j))
    ]
