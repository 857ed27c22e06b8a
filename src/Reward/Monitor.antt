-- ===== src/Reward/Monitor.antt =====
-- The client of the node's RPC in internal/reward/reward.go: `Snapshot`, `Scan` and
-- `observeReward`. The node is a record of functions on a world `W` that each call may change. An
-- unsuccessful call's partial result, which no caller reads, is left out.
pub mod Calls
pub mod Observe
pub mod Chain
pub mod Recorded
pub mod Examples
pub use Calls.{Rpc, M, answer}
use collator.Prelude.{
  ℕ, zero, suc, ◌+◌, ◌-◌, ◌*◌, ℤ, pos, pos_part, neg_part, ltb_ℤ, leb_ℤ, eqb_ℤ, add64, sub64,
  signed64, Time, List, [], ◌∷◌, ◌++◌, length, Bool, true, false, ◌&&◌, ◌||◌, not, ltb, leb, ◌==◌,
  if◌then◌else◌, Option, none, some, String, ◌=?◌,
}
use collator.Model.{Error, plain, Result, ok, err, RewardObservation, RewardSnapshot, RewardScan}
use collator.Reward.Codec.{
  AccountInfo, decode_account_info, decode_block_number, decode_account_vector, little_endian,
  is_supported_spec_version, expected_reward,
}
use collator.Reward.Address.{Keys, same_bytes}
use Calls.{
  ◌>>=◌, ◌>>◌, pure, lift, attempt, reject_call, block_hash, header, runtime_version, storage,
  parse_int,
}

pub record Monitor : Type 0 where
  pub address : String
  pub source : String
  pub keys : Keys

-- Go's zero time to the Unix epoch, in nanoseconds.
abbrev unix_epoch : ℕ
unix_epoch = 62135596800000000000

-- `time.UnixMilli(int64(binary.LittleEndian.Uint64(raw)))`
abbrev unix_milli : List ℕ → Time
unix_milli raw =
    let ms = signed64 (little_endian raw) in
    unix_epoch + pos_part ms * 1000000 - neg_part ms * 1000000

-- The time that a block's `Timestamp.Now` gives, and 0 where it is missing or of another length.
abbrev stamp : Result (List ℕ) → Time
stamp (err e) = 0
stamp (ok raw) = if length raw == 8 then unix_milli raw else 0

-- `switch` of `observeReward`.
unfoldable pub verification_of : ℕ → ℕ → String
verification_of expected credited =
    if expected == 0
    then "pot_empty"
    else (if ltb credited expected
        then "insufficient"
        else (if ltb expected credited then "confirmed_extra" else "confirmed"))

abbrev holds_account : List ℕ → List (List ℕ) → Bool
holds_account account [] = false
holds_account account (a ∷ rest) = if same_bytes a account then true else holds_account account rest

abbrev lacks_schema : AccountInfo → AccountInfo → AccountInfo → Bool
lacks_schema before after pot = not before.schema_ok || (not after.schema_ok || not pot.schema_ok)

-- The observation that `observeReward` fills in; a loss of the wallet counts as a credit of 0.
abbrev pub observation :
    Monitor → ℤ → String → AccountInfo → AccountInfo → AccountInfo → Time → RewardObservation
observation m block hash before after pot at =
    let expected = expected_reward pot.free in
    let credited = after.free - before.free in
    record {
      block_number = block;
      block_hash = hash;
      authored_at = at;
      expected = expected;
      credited = credited;
      wallet_before = before.free;
      wallet_after = after.free;
      pot_before = pot.free;
      verification = verification_of expected credited;
      source_count = 1;
      evidence = ("source", m.source) ∷ [];
    }

-- A range of at most 128 blocks takes at most 128 rounds and the last test.
abbrev pub scan_fuel : ℕ
scan_fuel = 129

-- `from <= 0 || to < from || to-from+1 > 128`
unfoldable pub is_bad_range : ℤ → ℤ → Bool
is_bad_range from to =
    leb_ℤ from (pos 0) || (ltb_ℤ to from || ltb_ℤ (pos 128) (add64 (sub64 to from) (pos 1)))

abbrev is_new : ℤ → ℤ → ℤ → Bool
is_new block last previous = eqb_ℤ last block && not (eqb_ℤ last previous)

module _ {W : Type 0} (rpc : Rpc W) (m : Monitor) where
  unfoldable pub observe_reward : ℤ → String → String → M W RewardObservation
  unfolding storage verification_of decode_account_info expected_reward
  observe_reward block hash parent_hash = do
    wallet_before_raw ← storage rpc m.keys.wallet_account parent_hash
    wallet_after_raw ← storage rpc m.keys.wallet_account hash
    pot_raw ← storage rpc m.keys.pot_account parent_hash
    wallet_before ← lift (decode_account_info wallet_before_raw)
    wallet_after ← lift (decode_account_info wallet_after_raw)
    pot ← lift (decode_account_info pot_raw)
    reject_call (lacks_schema wallet_before wallet_after pot) (plain "unsupported account info")
    timestamp ← attempt (storage rpc m.keys.timestamp_now hash)
    pure (observation m block hash wallet_before wallet_after pot (stamp timestamp))

  -- `if last == block && last != previous { ... }`
  unfoldable pub report :
      ℤ → String → String → Bool → List RewardObservation → M W (List RewardObservation)
  unfolding observe_reward
  report block hash previous_hash false out = pure out
  report block hash previous_hash true out =
      observe_reward block hash previous_hash >>= λ x. pure (out ++ x ∷ [])

  -- The loop of `Scan` over the blocks, on fuel: the height and the hash before, and what is found.
  unfoldable pub scan_loop :
      ℕ → ℤ → ℤ → ℤ → String → List RewardObservation → M W (ℤ × List RewardObservation)
  unfolding block_hash storage decode_block_number report
  scan_loop zero block to previous previous_hash out = lift (err (plain "scan loop"))
  scan_loop (suc fuel) block to previous previous_hash out =
      if leb_ℤ block to
      then (do
        hash ← block_hash rpc block
        last_raw ← storage rpc m.keys.last_authored hash
        last ← lift (decode_block_number last_raw)
        found ← report block hash previous_hash (is_new block last previous) out
        scan_loop fuel (add64 block (pos 1)) to last hash found)
      else pure (previous, out)

  abbrev pub check_version : String → M W (Unit {0})
  check_version hash = do
    version ← runtime_version rpc hash
    reject_call (not (is_supported_spec_version version)) (plain "unsupported runtime spec")

  unfoldable pub scan : ℤ → ℤ → M W RewardScan
  unfolding block_hash storage decode_block_number scan_loop runtime_version is_bad_range
  scan from to = do
    reject_call (is_bad_range from to) (plain "invalid scan range")
    previous_hash ← block_hash rpc (sub64 from (pos 1))
    end_hash ← block_hash rpc to
    check_version previous_hash
    check_version end_hash
    previous_raw ← storage rpc m.keys.last_authored previous_hash
    previous ← lift (decode_block_number previous_raw)
    (last, out) ← scan_loop scan_fuel from to previous previous_hash []
    pure (record {
      from = from;
      to = to;
      last_authored = last;
      observations = out;
      source = m.source;
    })

  -- The time of the block that the collator authored last; a failure leaves it unset.
  abbrev authored_time : ℤ → M W Time
  authored_time last =
      if ltb_ℤ (pos 0) last
      then (do
        hash ← attempt (block_hash rpc last)
        elim hash [
          | err e ↦ pure 0
          | ok h ↦ attempt (storage rpc m.keys.timestamp_now h) >>= λ raw. pure (stamp raw)
        ])
      else pure 0

  unfoldable pub snapshot : Time → M W RewardSnapshot
  unfolding header block_hash storage decode_account_info decode_block_number decode_account_vector
      same_bytes
  snapshot now = do
    head ← rpc.finalized_head
    number ← header rpc head
    version ← rpc.spec_version head
    account_raw ← storage rpc m.keys.wallet_account head
    account ← lift (decode_account_info account_raw)
    last_raw ← storage rpc m.keys.last_authored head
    last ← lift (decode_block_number last_raw)
    validators_raw ← storage rpc m.keys.validators head
    validators ← lift (decode_account_vector validators_raw)
    last_at ← authored_time last
    let spec = (parse_int 10 version).0
    let schema = account.schema_ok && is_supported_spec_version spec
    pure (record {
      address = m.address;
      finalized_block = number;
      finalized_hash = head;
      last_authored_block = last;
      last_authored_at = last_at;
      wallet_free = account.free;
      wallet_reserved = account.reserved;
      active_session = holds_account m.keys.account_id validators;
      validator_count = length validators;
      spec_version = spec;
      schema_ok = schema;
      error = if schema then "" else "unsupported_runtime_schema";
      source = m.source;
      observed_at = now;
    })
