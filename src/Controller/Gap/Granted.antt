-- ===== src/Controller/Gap/Granted.antt =====
-- When an acknowledgement is granted, and that it is exactly where the controller asks for it.
use collator.Prelude.{
  ℤ, pos, ◌<ℤ◌, leb_ℤ, add64, sub64, sub64_parts, IsInt64, Time, true, false, some, String, =?_iff,
  ◌≡◌, refl, arith,
}
use collator.Model.{
  Error, Result, ok, err, reject, reject-ok, Returns, Returns-eq, >>=-Returns_eq, RewardRecovery,
  RewardSnapshot, RewardScan,
}
use collator.Store.{Db, Faults, retained_window}
use collator.Store.Scan.{Atomic}
use collator.Store.Rebase.{
  RewardGapRebase, RewardGapApproval, trimmed, acknowledge_pruned_reward_gap,
}
use collator.Store.Rebase.Laws.{Rebased, acknowledge-Atomic}
use collator.Controller.Validate.{validate_local_reward_scan}
use collator.Controller.Gap.{
  is_pruned_reward_state_error, reward_recovery_for_scan_error, is_bad_snapshot, must_be_pruned,
  with_context, discarded_end, probe_end, gap_checks, acknowledge_after, acknowledge_gap,
}

-- What the checks have seen.
pub record Checked (snapshot_call : Result RewardSnapshot) (scan_call : ℤ → ℤ → Result RewardScan)
    (expected : ℤ) (baseline finalized : ℤ) : Type 0 where
  pub snapshot : RewardSnapshot
  pub seen : snapshot_call ≡ ok snapshot
  pub trusted : (snapshot.source ≡ "local") × (snapshot.schema_ok ≡ true)
  pub height : (snapshot.finalized_block ≡ finalized) × (pos 0 <ℤ finalized)
  pub lost : Error
  pub history : scan_call (add64 expected (pos 1)) (discarded_end expected finalized) ≡ err lost
  pub asked :
      (r : RewardRecovery) × (reward_recovery_for_scan_error expected finalized lost ≡ some r)
      × (r.candidate_resume_from_block ≡ add64 baseline (pos 1))
  pub probe : RewardScan
  pub readable :
      let from = add64 baseline (pos 1) in
      (scan_call from (probe_end from finalized) ≡ ok probe)
      × (validate_local_reward_scan probe from (probe_end from finalized) ≡ ok tt)

with_context_lem :
    {A : Type 0} (t : String) (r : Result A) {a : A} → with_context t r ≡ ok a → r ≡ ok a
unfolding with_context
with_context_lem t (ok a) e = e
with_context_lem t (err x) e = absurd (cc)

must_be_pruned_lem :
    (r : Result RewardScan) {u : Unit {0}}
    → must_be_pruned r ≡ ok u
    → (e : Error) × (r ≡ err e) × (is_pruned_reward_state_error e ≡ true)
unfolding must_be_pruned
must_be_pruned_lem (ok scan) h = absurd (cc)
must_be_pruned_lem (err e) h = (e, refl, ground arith)

snapshot_lem :
    (s : RewardSnapshot)
    → is_bad_snapshot s ≡ false
    → (s.source ≡ "local") × (s.schema_ok ≡ true) × (pos 0 <ℤ s.finalized_block)
unfolding is_bad_snapshot
snapshot_lem s h = ground (arith, =?_iff s.source "local")

asked_lem :
    (expected finalized : ℤ) (e : Error)
    → leb_ℤ expected (pos 0) ≡ false
    → leb_ℤ (sub64 finalized expected) retained_window ≡ false
    → is_pruned_reward_state_error e ≡ true
    → (r : RewardRecovery) × (reward_recovery_for_scan_error expected finalized e ≡ some r)
      × (r.candidate_resume_from_block ≡ add64 (sub64 finalized retained_window) (pos 1))
unfolding reward_recovery_for_scan_error
asked_lem expected finalized e p q r =
    let asked : reward_recovery_for_scan_error expected finalized e
        ≡ some (record {
          required = true;
          reason = "local_state_pruned";
          expected_cursor = expected;
          candidate_resume_from_block = add64 (sub64 finalized retained_window) (pos 1);
        }) =
      rw (r, p, q) refl in
    (_, asked, refl)

gap_checks-Checked :
    (snapshot_call : Result RewardSnapshot) (scan_call : ℤ → ℤ → Result RewardScan) (expected : ℤ)
    → Returns
        (λ r. (r.0 ≡ sub64 r.1 retained_window) × Checked snapshot_call scan_call expected r.0 r.1)
        (gap_checks snapshot_call scan_call expected)
unfolding gap_checks
gap_checks-Checked snapshot_call scan_call expected =
    let P : ℤ × ℤ → Type 0 =
      λ r. (r.0 ≡ sub64 r.1 retained_window) × Checked snapshot_call scan_call expected r.0 r.1 in
    >>=-Returns_eq P (reject (leb_ℤ expected (pos 0)) _) _ λ _ up.
      >>=-Returns_eq P (with_context _ snapshot_call) _ λ s seen.
        >>=-Returns_eq P (reject (is_bad_snapshot s) _) _ λ _ fine.
          >>=-Returns_eq P (reject (leb_ℤ (sub64 s.finalized_block expected) retained_window) _) _
            λ _ far.
              let top = s.finalized_block in
              let baseline = sub64 top retained_window in
              let from = add64 baseline (pos 1) in
              let to = probe_end from top in
              let old = scan_call (add64 expected (pos 1)) (discarded_end expected top) in
              >>=-Returns_eq P (must_be_pruned old) _ λ _ gone.
                >>=-Returns_eq P (with_context _ (scan_call from to)) _ λ probe read.
                  >>=-Returns_eq P (with_context _ (validate_local_reward_scan probe from to)) _
                    λ _ valid.
                      let (source, schema, high) = snapshot_lem s (reject-ok _ _ fine) in
                      let (e, history, pruned) = must_be_pruned_lem old gone in
                      let checked : P (baseline, top) = (
                        refl,
                        record {
                          snapshot = s;
                          seen = with_context_lem _ snapshot_call seen;
                          trusted = (source, schema);
                          height = (refl, high);
                          lost = e;
                          history = history;
                          asked =
                              asked_lem expected top e (reject-ok _ _ up) (reject-ok _ _ far)
                                pruned;
                          probe = probe;
                          readable = (
                            with_context_lem _ (scan_call from to) read,
                            with_context_lem _ (validate_local_reward_scan probe from to) valid,
                          );
                        },
                      ) in
                      checked

-- What a granted acknowledgement has seen, and what it did.
abbrev pub Granted :
    Result RewardSnapshot
    → (ℤ → ℤ → Result RewardScan)
    → Db
    → ℤ
    → RewardGapApproval
    → Db
    → RewardGapRebase
    → Type 0
Granted snapshot_call scan_call db expected approval db' r =
    (baseline : ℤ) × (finalized : ℤ) × Checked snapshot_call scan_call expected baseline finalized
    × Rebased db expected baseline finalized (trimmed approval) db' r

Atomic-map :
    {A : Type 0} (db : Db) (P Q : Db → A → Type 0) (r : Db × Result A)
    → ((db' : Db) (a : A) → P db' a → Q db' a)
    → Atomic db P r
    → Atomic db Q r
Atomic-map db P Q (db', ok a) f h = f db' a h
Atomic-map db P Q (db', err e) f h = h

base_lem : (f : ℤ) → pos 0 <ℤ f → IsInt64 f → IsInt64 (sub64 f retained_window)
base_lem f p i = ground (arith, sub64_parts f retained_window)

-- Whatever the agent and the database answer, if the agent's height is an int64: the command either
-- fails and leaves every table as it was, or the gap is granted. Then the agent's own snapshot is of
-- the local node and of a known schema; its scan just above the cursor failed, with an error for
-- which the controller asks for this very recovery; its scan of the first retained blocks passed the
-- check; and the store has moved the cursor to just below those blocks and has logged it.
pub acknowledge_gap-Granted :
    (fail : Faults) (now : Time) (id : String) (snapshot_call : Result RewardSnapshot)
    (scan_call : ℤ → ℤ → Result RewardScan) (db : Db) (expected : ℤ) (approval : RewardGapApproval)
    → Returns (λ s. IsInt64 s.finalized_block) snapshot_call
    → Atomic db
        (Granted snapshot_call scan_call db expected approval)
        (acknowledge_gap fail now id snapshot_call scan_call db expected approval)
unfolding acknowledge_gap acknowledge_after
acknowledge_gap-Granted fail now id snapshot_call scan_call db expected approval wide =
    after (gap_checks snapshot_call scan_call expected)
      (gap_checks-Checked snapshot_call scan_call expected)
  where
    after :
        (r : Result (ℤ × ℤ))
        → Returns
            (λ s.
              (s.0 ≡ sub64 s.1 retained_window) × Checked snapshot_call scan_call expected s.0 s.1)
            r
        → Atomic db
            (Granted snapshot_call scan_call db expected approval)
            (acknowledge_after fail now id db expected approval r)
    after (err e) h = refl
    after (ok (baseline, finalized)) (at, c) =
        let top : IsInt64 finalized =
          rw c.height.0 at
            (Returns-eq (λ s. IsInt64 s.finalized_block) snapshot_call wide c.seen) in
        let low : IsInt64 baseline = rw at (base_lem finalized c.height.1 top) in
        Atomic-map db (Rebased db expected baseline finalized (trimmed approval))
          (Granted snapshot_call scan_call db expected approval)
          (acknowledge_pruned_reward_gap fail now id db expected baseline finalized approval)
          (λ db' r b. (baseline, finalized, c, b))
          (acknowledge-Atomic fail now id db expected baseline finalized approval c.height.1 top
            low)
