-- ===== src/Reward/Monitor/Chain.antt =====
-- A scan of a chain that the node serves faithfully: it succeeds, and misses nothing.
use collator.Prelude.{
  ℕ, zero, suc, ℤ, pos, add64, sub64, List, [], ◌∷◌, ◌++◌, ◌≡◌, String, if◌then◌else◌,
}
use collator.Model.{ok, RewardObservation}
use collator.Reward.Codec.{decode_block_number}
use collator.Reward.Monitor.{Rpc, answer, Monitor, is_new, observe_reward, check_version}
use collator.Reward.Monitor.Calls.{block_hash, storage}

-- The finalized chain as the node shows it, by height.
pub record Chain : Type 0 where
  pub hash_of : ℤ → String
  pub stored_last : ℤ → List ℕ
  pub last_at : ℤ → ℤ
  pub seen_at : ℤ → RewardObservation

abbrev pub before : ℤ → ℤ
before b = sub64 b (pos 1)

-- The node answers every call with what the chain holds.
pub record Serves {W : Type 0} (rpc : Rpc W) (m : Monitor) (c : Chain) : Type 0 where
  pub hashes : (b : ℤ) (w : W) → answer (block_hash rpc b) w ≡ ok (c.hash_of b)
  pub versions : (b : ℤ) (w : W) → answer (check_version rpc m (c.hash_of b)) w ≡ ok tt
  pub stores :
      (b : ℤ) (w : W)
      → answer (storage rpc m.keys.last_authored (c.hash_of b)) w ≡ ok (c.stored_last b)
  pub decodes : (b : ℤ) → decode_block_number (c.stored_last b) ≡ ok (c.last_at b)
  pub observes :
      (b : ℤ) (w : W)
      → answer (observe_reward rpc m b (c.hash_of b) (c.hash_of (before b))) w ≡ ok (c.seen_at b)

-- The collator's blocks among `n` blocks from `b` on: those that name themselves the last one
-- authored, where the block before does not.
abbrev pub authored : Chain → ℕ → ℤ → List RewardObservation
authored c zero b = []
authored c (suc n) b =
    if is_new b (c.last_at b) (c.last_at (before b))
    then c.seen_at b ∷ authored c n (add64 b (pos 1))
    else authored c n (add64 b (pos 1))

module _ {W : Type 0} (rpc : Rpc W) (m : Monitor) (c : Chain) (faithful : Serves rpc m c) where
  open faithful use {hashes, versions, stores, decodes, observes}

  abbrev with_block : ℤ → List RewardObservation → List RewardObservation
  with_block b out =
      if is_new b (c.last_at b) (c.last_at (before b)) then out ++ c.seen_at b ∷ [] else out
