-- ===== src/Store.antt =====
-- internal/store/store.go: the reward tables and the transactions on them. A table is a list of
-- rows, and a statement does to the tables what its SQL says. `fail` gives what the database itself
-- answers to each statement, so that every one of them may fail.
pub mod Ids
pub mod Rows
pub mod Scan
pub mod Rebase
pub mod Examples
use collator.Prelude.{
  ℕ, ◌+◌, ℤ, pos, pos_part, neg_part, ltb_ℤ, leb_ℤ, eqb_ℤ, add64, sub64, Time, is_zero, List, [],
  ◌∷◌, ◌++◌, Bool, true, false, not, ◌&&◌, ◌||◌, leb, if◌then◌else◌, Option, none, some, String,
  ◌=?◌, max,
}
use collator.Model.{
  Error, plain, no_rows, reward_cursor_conflict, reward_block_hash_conflict, wrapped, Result, ok,
  err, ◌>>=◌, ◌>>◌, reject, Value, num, text, flag, Evidence, RewardOverview, RewardObservation,
  RewardHistoryGap, Gap, acknowledged_pruned, RewardRecovery,
}

abbrev pub retained_window : ℤ
retained_window = pos 64

abbrev pub max_transition : ℤ
max_transition = pos 128

pub record AuditRow : Type 0 where
  pub id : String
  pub action : String
  pub actor : String
  pub result : String
  pub details : Evidence

-- The one row of `reward_monitor_state`, the rows of `reward_events`, and the audit log.
pub record Db : Type 0 where
  pub monitor_state : Option (ℤ × RewardOverview)
  pub events : List RewardObservation
  pub audits : List AuditRow

-- The statements of a transaction, and the two calls that are not.
pub data Site : Type 0 where
  new_id begin select_state decode_payload insert_audit update_state commit : Site
  upsert : ℤ → Site

abbrev pub Faults : Type 0
Faults = Site → Result (Unit {0})

-- `defer tx.Rollback()`: the tables change only if the whole body and the commit succeed.
abbrev pub transaction {ℓ} : {A : Type ℓ} → Db → Result (Db × A) → Db × Result A
transaction db (ok (db', a)) = (db', ok a)
transaction db (err e) = (db, err e)

-- `UPDATE ... SET evidence = reward_events.evidence || excluded.evidence` on one key.
unfoldable pub put : String → String → List (String × String) → List (String × String)
put k v [] = (k, v) ∷ []
put k v ((j, w) ∷ m) = if j =? k then (k, v) ∷ m else (j, w) ∷ put k v m

unfoldable pub put_all : List (String × String) → List (String × String) → List (String × String)
unfolding put
put_all [] m = m
put_all ((k, v) ∷ new) m = put_all new (put k v m)

unfoldable pub number_taken : ℤ → List RewardObservation → Bool
number_taken n [] = false
number_taken n (x ∷ xs) = eqb_ℤ x.block_number n || number_taken n xs

unfoldable pub hash_taken : String → List RewardObservation → Bool
hash_taken h [] = false
hash_taken h (x ∷ xs) = x.block_hash =? h || hash_taken h xs

-- `DO UPDATE SET source_count=GREATEST(...), verification=CASE ... END, evidence=... || ...`
unfoldable pub merge_row : RewardObservation → RewardObservation → RewardObservation
unfolding put_all
merge_row old x = record old {
  source_count = max old.source_count x.source_count;
  verification = if leb old.source_count x.source_count then x.verification else old.verification;
  evidence = put_all x.evidence old.evidence;
}

-- The update of the row with the block's number, where the hash agrees; otherwise no row changes.
unfoldable pub update_row :
    RewardObservation → List RewardObservation → Result (List RewardObservation)
unfolding merge_row
update_row x [] = err reward_block_hash_conflict
update_row x (y ∷ ys) =
    if eqb_ℤ y.block_number x.block_number
    then (if y.block_hash =? x.block_hash
        then ok (merge_row y x ∷ ys)
        else err reward_block_hash_conflict)
    else (update_row x ys >>= λ zs. ok (y ∷ zs))

-- `upsertRewardObservation` on the rows: an unset time is the present one.
unfoldable pub upsert_observation :
    Time → RewardObservation → List RewardObservation → Result (List RewardObservation)
unfolding number_taken hash_taken update_row
upsert_observation now x0 rows =
    let x = if is_zero x0.authored_at then record x0 { authored_at = now } else x0 in
    if number_taken x.block_number rows
    then update_row x rows
    else (if hash_taken x.block_hash rows
        then err (plain "duplicate key value: block_hash")
        else ok (rows ++ x ∷ []))

-- `validateRewardCursorTransition`
unfoldable pub validate_cursor_transition : ℤ → ℤ → Result (Unit {0})
validate_cursor_transition expected next =
    if leb_ℤ expected (pos 0) || leb_ℤ next expected
    then err (plain "invalid reward cursor transition")
    else (if ltb_ℤ max_transition (sub64 next expected)
        then err (plain "reward cursor transition exceeds blocks")
        else ok tt)

-- The loop of `ApplyRewardScan` before the transaction.
unfoldable pub check_observations : ℤ → ℤ → List RewardObservation → Result (Unit {0})
check_observations expected last [] = ok tt
check_observations expected last (x ∷ xs) =
    let rest = check_observations expected last xs in
    if leb_ℤ x.block_number expected || ltb_ℤ last x.block_number
    then err (plain "reward observation outside cursor transition")
    else rest

unfoldable pub upsert_all :
    Faults
    → Time
    → List RewardObservation
    → List RewardObservation
    → Result (List RewardObservation)
unfolding upsert_observation
upsert_all fail now [] rows = ok rows
upsert_all fail now (x ∷ xs) rows = do
  fail (upsert x.block_number)
  rows' ← upsert_observation now x rows
  upsert_all fail now xs rows'

-- `SELECT last_scanned_block,payload FROM reward_monitor_state WHERE id=1 FOR UPDATE`
abbrev pub state_row : Option (ℤ × RewardOverview) → Result (ℤ × RewardOverview)
state_row none = err no_rows
state_row (some row) = ok row

abbrev pub conflict_unless : Bool → Result (Unit {0})
conflict_unless true = ok tt
conflict_unless false = err (wrapped "reward cursor" reward_cursor_conflict)

unfoldable pub apply_body :
    Faults → Time → Db → ℤ → RewardOverview → List RewardObservation → Result (Db × Unit {0})
unfolding upsert_all
apply_body fail now db expected overview observations = do
  fail begin
  fail select_state
  (current, payload) ← state_row db.monitor_state
  conflict_unless (eqb_ℤ current expected)
  rows ← upsert_all fail now observations db.events
  fail update_state
  fail commit
  ok (record db { monitor_state = some (overview.last_scanned_block, overview); events = rows }, tt)

-- `ApplyRewardScan`
unfoldable pub apply_reward_scan :
    Faults → Time → Db → ℤ → RewardOverview → List RewardObservation → Db × Result (Unit {0})
unfolding validate_cursor_transition check_observations apply_body
apply_reward_scan fail now db expected overview observations = transaction db do
  validate_cursor_transition expected overview.last_scanned_block
  check_observations expected overview.last_scanned_block observations
  apply_body fail now db expected overview observations
