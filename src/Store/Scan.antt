-- ===== src/Store/Scan.antt =====
-- `ApplyRewardScan`: all of a scan is recorded and the cursor moves over it, or nothing happens.
use collator.Prelude.{
  ◌+◌, ◌≤◌, ℤ, pos, pos_part, neg_part, ◌≤ℤ◌, ◌<ℤ◌, eqb_ℤ, eq_of_parts, sub64_parts, IsInt64, Time,
  List, [], ◌∷◌, Bool, true, false, Option, none, some, ◌≡◌, refl, ap, ◌∙◌, arith, All,
}
use collator.Model.{
  Result, ok, err, ◌>>=◌, Returns, >>=-Returns, >>=-Returns_eq, Returns-map, RewardOverview,
  RewardObservation,
}
use collator.Store.{
  Db, Faults, begin, select_state, update_state, commit, transaction, validate_cursor_transition,
  check_observations, upsert_all, apply_body, apply_reward_scan, state_row, conflict_unless,
}
use collator.Store.Rows.{Unique, UpTo, AllUpserted, upsert_all-AllUpserted}

-- The observation lies in the range that the cursor passes.
abbrev pub Passed : ℤ → ℤ → RewardObservation → Type 0
Passed expected last x = (expected <ℤ x.block_number) × (x.block_number ≤ℤ last)

-- What a committed scan did to the tables.
pub record Applied (db : Db) (expected : ℤ) (overview : RewardOverview)
    (observations : List RewardObservation) (db' : Db) : Type 0 where
  pub from_cursor : (payload : RewardOverview) × (db.monitor_state ≡ some (expected, payload))
  pub to_cursor : db'.monitor_state ≡ some (overview.last_scanned_block, overview)
  pub forward : expected <ℤ overview.last_scanned_block
  pub bounded :
      pos_part overview.last_scanned_block + neg_part expected
      ≤ pos_part expected + neg_part overview.last_scanned_block + 128
  pub passed : All (Passed expected overview.last_scanned_block) observations
  pub written : AllUpserted observations db.events db'.events
  pub audits : db'.audits ≡ db.audits

validate_lem :
    (expected next : ℤ)
    → IsInt64 expected
    → IsInt64 next
    → Returns
        (λ _.
          (pos 0 <ℤ expected)
          × (expected <ℤ next)
          × (pos_part next + neg_part expected ≤ pos_part expected + neg_part next + 128))
        (validate_cursor_transition expected next)
unfolding validate_cursor_transition
validate_lem expected next i j = ground (arith, sub64_parts next expected)

check_observations_lem :
    (expected last : ℤ) (xs : List RewardObservation)
    → Returns (λ _. All (Passed expected last) xs) (check_observations expected last xs)
unfolding check_observations
check_observations_lem expected last [] = tt
check_observations_lem expected last (x ∷ xs) =
    ground (arith, check_observations_lem expected last xs)

-- What the body of the transaction does, if it succeeds.
abbrev Body : Db → ℤ → RewardOverview → List RewardObservation → Db → Type 0
Body db expected overview xs db' =
    ((payload : RewardOverview) × (db.monitor_state ≡ some (expected, payload)))
    × (db'.monitor_state ≡ some (overview.last_scanned_block, overview))
    × AllUpserted xs db.events db'.events
    × (db'.audits ≡ db.audits)

pub state_row_lem :
    (s : Option (ℤ × RewardOverview)) {row : ℤ × RewardOverview}
    → state_row s ≡ ok row
    → s ≡ some row
state_row_lem none e = absurd (cc)
state_row_lem (some r) e = cc

pub conflict_unless_lem : (b : Bool) {u : Unit {0}} → conflict_unless b ≡ ok u → b ≡ true
conflict_unless_lem true e = refl
conflict_unless_lem false e = absurd (cc)

apply_body_lem :
    (fail : Faults) (now : Time) (db : Db) (expected : ℤ) (overview : RewardOverview)
    (xs : List RewardObservation)
    → Returns (λ r. Body db expected overview xs r.0) (apply_body fail now db expected overview xs)
unfolding apply_body
apply_body_lem fail now db expected overview xs =
    let P : Db × Unit {0} → Type 0 = λ r. Body db expected overview xs r.0 in
    >>=-Returns_eq P (fail begin) _ λ _ _. >>=-Returns_eq P (fail select_state) _ λ _ _.
      >>=-Returns_eq P (state_row db.monitor_state) _ λ row e.
        >>=-Returns_eq P (conflict_unless (eqb_ℤ row.0 expected)) _ λ _ same.
          >>=-Returns (AllUpserted xs db.events) P (upsert_all fail now xs db.events) _
            (upsert_all-AllUpserted fail now xs db.events)
            λ rows written. >>=-Returns_eq P (fail update_state) _ λ _ _.
              >>=-Returns_eq P (fail commit) _ λ _ _. (
                (
                  row.1,
                  state_row_lem db.monitor_state e
                      ∙ ap (λ t. some (t, row.1))
                          (eq_of_parts row.0 expected
                            (ground (arith, conflict_unless_lem (eqb_ℤ row.0 expected) same))),
                ),
                refl,
                written,
                refl,
              )

apply_lem :
    (fail : Faults) (now : Time) (db : Db) (expected : ℤ) (overview : RewardOverview)
    (xs : List RewardObservation)
    → IsInt64 expected
    → IsInt64 overview.last_scanned_block
    → Returns
        (λ r. Applied db expected overview xs r.0)
        (validate_cursor_transition expected overview.last_scanned_block >>= λ _.
          check_observations expected overview.last_scanned_block xs >>= λ _.
          apply_body fail now db expected overview xs)
apply_lem fail now db expected overview xs i j =
    let last = overview.last_scanned_block in
    let P : Db × Unit {0} → Type 0 = λ r. Applied db expected overview xs r.0 in
    >>=-Returns _ P (validate_cursor_transition expected last) _ (validate_lem expected last i j)
      λ _ (up, ahead, near).
        >>=-Returns (λ _. All (Passed expected last) xs) P (check_observations expected last xs) _
          (check_observations_lem expected last xs)
          λ _ passed.
            Returns-map (λ r. Body db expected overview xs r.0) P
              (apply_body fail now db expected overview xs)
              (λ r b. record {
                from_cursor = b.0;
                to_cursor = b.1;
                forward = ahead;
                bounded = near;
                passed = passed;
                written = b.2;
                audits = b.3;
              })
              (apply_body_lem fail now db expected overview xs)

-- Either there is an error and the tables are as they were, or the result is good.
abbrev pub Atomic : {A : Type 0} → Db → (Db → A → Type 0) → Db × Result A → Type 0
Atomic db P (db', ok a) = P db' a
Atomic db P (db', err e) = db' ≡ db

pub transaction-Atomic :
    {A : Type 0} (db : Db) (P : Db → A → Type 0) (r : Result (Db × A))
    → Returns (λ s. P s.0 s.1) r
    → Atomic db P (transaction db r)
transaction-Atomic db P (ok (db', a)) h = h
transaction-Atomic db P (err e) h = refl

-- Whatever the database answers to each statement: `ApplyRewardScan` either fails and leaves every
-- table as it was, or the cursor stood at the one expected and moves up from it, by 128 blocks at
-- most, to that of the new overview, which is stored. Then every observation is of a block that the
-- cursor passes and is recorded under its hash; each row that was there still is; and the unique
-- keys stay unique.
pub apply_reward_scan-Atomic :
    (fail : Faults) (now : Time) (db : Db) (expected : ℤ) (overview : RewardOverview)
    (observations : List RewardObservation)
    → IsInt64 expected
    → IsInt64 overview.last_scanned_block
    → Atomic db
        (λ db' _. Applied db expected overview observations db')
        (apply_reward_scan fail now db expected overview observations)
unfolding apply_reward_scan
apply_reward_scan-Atomic fail now db expected overview observations i j =
    transaction-Atomic db (λ db' _. Applied db expected overview observations db') _
      (apply_lem fail now db expected overview observations i j)

-- The unique keys, one cursor in the column and in the payload, and no event above it.
pub record WellFormed (db : Db) : Type 0 where
  pub unique : Unique db.events
  pub cursor :
      (c : ℤ) (payload : RewardOverview)
      → db.monitor_state ≡ some (c, payload)
      → (payload.last_scanned_block ≡ c) × UpTo c db.events

pub UpTo-mono : (c d : ℤ) (xs : List RewardObservation) → c ≤ℤ d → UpTo c xs → UpTo d xs
UpTo-mono c d [] h u = tt
UpTo-mono c d (x ∷ xs) h (p, u) = (omega arith, UpTo-mono c d xs h u)

Passed-UpTo : (c d : ℤ) (xs : List RewardObservation) → All (Passed c d) xs → UpTo d xs
Passed-UpTo c d [] u = tt
Passed-UpTo c d (x ∷ xs) (p, u) = (p.1, Passed-UpTo c d xs u)

Applied-WellFormed :
    (db : Db) (expected : ℤ) (overview : RewardOverview) (xs : List RewardObservation) (db' : Db)
    → WellFormed db
    → Applied db expected overview xs db'
    → WellFormed db'
Applied-WellFormed db expected overview xs db' v a = record {
  unique = a.written.unique v.unique;
  cursor = λ c payload e.
      let last = overview.last_scanned_block in
      let c_is : c ≡ last = cc (e, a.to_cursor) in
      let payload_is : payload ≡ overview = cc (e, a.to_cursor) in
      rw (c_is, payload_is)
        (
          refl,
          a.written.within last (Passed-UpTo expected last xs a.passed) (
              UpTo-mono expected last db.events (omega (arith, a.forward))
                (v.cursor expected a.from_cursor.0 a.from_cursor.1).1),
        );
}

-- A transaction that either fails or keeps the tables in order keeps them in order.
pub Atomic-WellFormed :
    {A : Type 0} (db : Db) (P : Db → A → Type 0) (r : Db × Result A)
    → ((db' : Db) (a : A) → P db' a → WellFormed db')
    → WellFormed db
    → Atomic db P r
    → WellFormed r.0
Atomic-WellFormed db P (db', ok a) f v h = f db' a h
Atomic-WellFormed db P (db', err e) f v h = rw h v

-- `ApplyRewardScan` keeps the tables in order, whatever fails: the events have unique heights and
-- hashes, the cursor in the column is that of the payload, and no event is of a block above it.
pub apply_reward_scan-WellFormed :
    (fail : Faults) (now : Time) (db : Db) (expected : ℤ) (overview : RewardOverview)
    (observations : List RewardObservation)
    → IsInt64 expected
    → IsInt64 overview.last_scanned_block
    → WellFormed db
    → WellFormed (apply_reward_scan fail now db expected overview observations).0
apply_reward_scan-WellFormed fail now db expected overview observations i j v =
    Atomic-WellFormed db (λ db' _. Applied db expected overview observations db')
      (apply_reward_scan fail now db expected overview observations)
      (λ db' _. Applied-WellFormed db expected overview observations db' v) v
      (apply_reward_scan-Atomic fail now db expected overview observations i j)
