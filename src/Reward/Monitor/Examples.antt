-- ===== src/Reward/Monitor/Examples.antt =====
-- Tests of the monitor, against a node that serves a short chain.
use collator.Prelude.{
  ℕ, ℤ, pos, eqb_ℤ, List, [], ◌∷◌, ◌++◌, replicate, Bool, true, false, if◌then◌else◌, Option, none,
  some, String, ◌=?◌, codes, ◌≡◌, refl, arith, ◌==◌,
}
use collator.Model.{ok, err, Returns, RewardObservation}
use collator.Reward.Address.{hex_encode}
use collator.Reward.Monitor.{Rpc, answer, Monitor, observe_reward, scan}
use collator.Reward.Monitor.Calls.{block_hash}
use collator.Reward.Monitor.Recorded.{GoodScan, scan-Rising}
use collator.Reward.Monitor.Chain.{Chain, before}
use collator.Controller.Validate.{validate_local_reward_scan}
use collator.Controller.Validate.Agreement.{scan-validate}

abbrev monitor : Monitor
monitor = record {
  address = "wallet";
  source = "local";
  keys = record {
    account_id = 7 ∷ [];
    last_authored = 1 ∷ [];
    wallet_account = 2 ∷ [];
    pot_account = 3 ∷ [];
    timestamp_now = 4 ∷ [];
    validators = 5 ∷ [];
  };
}

-- Block 5 is the collator's.
abbrev hash_at : Bool → String
hash_at true = "five"
hash_at false = "other"

abbrev is_five : ℤ → Bool
is_five b = eqb_ℤ b (pos 5)

abbrev stored : Bool → List ℕ
stored true = 5 ∷ 0 ∷ 0 ∷ 0 ∷ []
stored false = 1 ∷ 0 ∷ 0 ∷ 0 ∷ []

abbrev last : Bool → ℤ
last true = pos 5
last false = pos 1

-- An account with the free balance of the given bytes.
abbrev account : List ℕ → List ℕ
account free = replicate 16 0 ++ free ++ replicate 61 0

abbrev cell : ℕ → Bool → Option (List ℕ)
cell k five =
    if k == 1
    then some (codes "0x" ++ hex_encode (stored five))
    else (if k == 2
        then some (codes "0x" ++ hex_encode (account ((if five then 15 else 5) ∷ 0 ∷ 0 ∷ [])))
        else (if k == 3
            then some (codes "0x" ++ hex_encode (account (84 ∷ 66 ∷ 15 ∷ [])))
            else none))

abbrev cell_of : List ℕ → Bool → Option (List ℕ)
cell_of [] five = none
cell_of (k ∷ ks) five = cell k five

abbrev node : Rpc (Unit {0})
node = record {
  finalized_head = λ w. (ok "head", w);
  chain_block_hash = λ b w. (ok (hash_at (is_five b)), w);
  header_number = λ h w. (ok (codes "0x6"), w);
  spec_version = λ h w. (ok (codes "2500"), w);
  get_storage = λ key h w. (ok (cell_of key (h =? "five")), w);
}

-- What is observed of a block, by whether it is block 5 and whether the one before is.
abbrev seen : ℤ → Bool → Bool → RewardObservation
seen b here there =
    elim (answer (observe_reward node monitor b (hash_at here) (hash_at there)) tt) [
      | ok x ↦ x
      | err e ↦ record {
        block_number = b;
        block_hash = "";
        authored_at = 0;
        expected = 0;
        credited = 0;
        wallet_before = 0;
        wallet_after = 0;
        pot_before = 0;
        verification = "";
        source_count = 0;
        evidence = [];
      }
    ]

abbrev chain : Chain
chain = record {
  hash_of = λ b. hash_at (is_five b);
  stored_last = λ b. stored (is_five b);
  last_at = λ b. last (is_five b);
  seen_at = λ b. seen b (is_five b) (is_five (before b));
}

scan-Rising_example :
    Returns (GoodScan monitor (pos 4) (pos 6)) (answer (scan node monitor (pos 4) (pos 6)) tt)
scan-Rising_example = scan-Rising node monitor (pos 4) (pos 6) tt (omega arith)

scan-validate_example :
    Returns
      (λ s. validate_local_reward_scan s (pos 4) (pos 6) ≡ ok tt)
      (answer (scan node monitor (pos 4) (pos 6)) tt)
scan-validate_example =
    scan-validate node monitor (pos 4) (pos 6) tt refl (omega arith) (omega arith) (omega arith)

-- Block 5 paid out half of the 20 that the pot held above the deposit.
block_five : (seen (pos 5) true false).verification ≡ "confirmed"
unfolding observe_reward codes hex_encode
block_five = refl
