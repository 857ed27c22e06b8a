-- ===== src/Reward/Monitor/Observe.antt =====
-- What one observation says of the block: the expected and the credited amounts, and the verdict.
use collator.Prelude.{ℕ, ◌+◌, ◌-◌, ◌/◌, ◌<◌, ℤ, ◌≡◌, refl, arith, ◌⊎◌, String}
use collator.Model.{plain, Returns, RewardObservation}
use collator.Reward.Codec.{AccountInfo, expected_reward, existential_deposit, decode_account_info}
use collator.Reward.Monitor.{
  Rpc, answer, Monitor, observe_reward, verification_of, observation, lacks_schema, stamp,
}
use collator.Reward.Monitor.Calls.{bind-Returns, storage, reject_call, lift}

-- The four verdicts, each with the amounts that it stands for.
abbrev pub Verdict : RewardObservation → Type 0
Verdict x =
    ((x.verification ≡ "pot_empty") × (x.pot_before < existential_deposit + 2))
    ⊎ ((x.verification ≡ "insufficient") × (x.credited < x.expected))
    ⊎ ((x.verification ≡ "confirmed_extra") × (0 < x.expected) × (x.expected < x.credited))
    ⊎ ((x.verification ≡ "confirmed") × (0 < x.expected) × (x.credited ≡ x.expected))

pub record Observed (block : ℤ) (hash : String) (x : RewardObservation) : Type 0 where
  pub number : x.block_number ≡ block
  pub at_hash : x.block_hash ≡ hash
  pub single : x.source_count ≡ 1
  pub half_of_pot : x.expected ≡ (x.pot_before - existential_deposit) / 2
  pub gained : x.credited ≡ x.wallet_after - x.wallet_before
  pub verdict : Verdict x

expected_reward_lem : (pot : ℕ) → expected_reward pot ≡ (pot - existential_deposit) / 2
unfolding expected_reward
expected_reward_lem pot = ground arith

Verdict-cases :
    (x : RewardObservation)
    → x.verification ≡ verification_of x.expected x.credited
    → x.expected ≡ (x.pot_before - existential_deposit) / 2
    → Verdict x
unfolding verification_of
Verdict-cases x e h = ground arith

observation-Observed :
    (m : Monitor) (block : ℤ) (hash : String) (before after pot : AccountInfo) (at : ℕ)
    → Observed block hash (observation m block hash before after pot at)
observation-Observed m block hash before after pot at =
    let x = observation m block hash before after pot at in
    record {
      number = refl;
      at_hash = refl;
      single = refl;
      half_of_pot = expected_reward_lem pot.free;
      gained = refl;
      verdict = Verdict-cases x refl (expected_reward_lem pot.free);
    }

pub observe_reward-Observed :
    {W : Type 0} (rpc : Rpc W) (m : Monitor) (block : ℤ) (hash parent_hash : String) (w : W)
    → Returns (Observed block hash) (answer (observe_reward rpc m block hash parent_hash) w)
unfolding observe_reward
observe_reward-Observed rpc m block hash parent_hash w =
    let P = Observed block hash in
    bind-Returns P (storage rpc m.keys.wallet_account parent_hash) _ w λ raw1 w1.
      bind-Returns P (storage rpc m.keys.wallet_account hash) _ w1 λ raw2 w2.
        bind-Returns P (storage rpc m.keys.pot_account parent_hash) _ w2 λ raw3 w3.
          bind-Returns P (lift (decode_account_info raw1)) _ w3 λ before w4.
            bind-Returns P (lift (decode_account_info raw2)) _ w4 λ after w5.
              bind-Returns P (lift (decode_account_info raw3)) _ w5 λ pot w6.
                bind-Returns P
                  (reject_call (lacks_schema before after pot) (plain "unsupported account info")) _
                  w6
                  λ _ w7.
                    observation-Observed m block hash before after pot
                      (stamp (answer (storage rpc m.keys.timestamp_now hash) w7))
