-- ===== src/Controller/Externals/Confirmed.antt =====
-- What a confirmation adds to an observation, and what the retry times keep.
use collator.Prelude.{
  ℕ, zero, suc, ◌+◌, ◌≤◌, Time, List, [], ◌∷◌, if◌then◌else◌, ◌≡◌, refl, arith, Bool-cases, inl,
  inr,
}
use collator.Model.{Result, ok, err, RewardObservation, RewardScan}
use collator.Controller.Externals.{
  External, reward_external_ready, counted, is_match, is_single_match, agrees, confirm_step,
  confirm_reward_anomaly,
}

-- All but the count of sources and the evidence is kept.
pub record SameClaim (x y : RewardObservation) : Type 0 where
  pub number : y.block_number ≡ x.block_number
  pub at_hash : y.block_hash ≡ x.block_hash
  pub at_time : y.authored_at ≡ x.authored_at
  pub amounts : (y.expected ≡ x.expected) × (y.credited ≡ x.credited)
  pub verdict : y.verification ≡ x.verification

-- How many of `n` nodes from `i` on report the same as the observation.
abbrev pub agreeing : ℕ → ℕ → (ℕ → Result RewardScan) → RewardObservation → ℕ
agreeing i zero ask x = 0
agreeing i (suc n) ask x =
    let rest = agreeing (suc i) n ask x in if agrees (ask i) x then suc rest else rest

SameClaim-single :
    (zs : List RewardObservation) (x y : RewardObservation)
    → SameClaim x y
    → is_single_match zs y ≡ is_single_match zs x
unfolding is_single_match is_match
SameClaim-single [] x y s = refl
SameClaim-single (z ∷ []) x y s = rw (s.at_hash, s.amounts.0, s.amounts.1, s.verdict) refl
SameClaim-single (z ∷ u ∷ us) x y s = refl

-- `y` says of the block what `x` does.
SameClaim-agrees :
    (answer : Result RewardScan) (x y : RewardObservation)
    → SameClaim x y
    → agrees answer y ≡ agrees answer x
unfolding agrees
SameClaim-agrees (err e) x y s = refl
SameClaim-agrees (ok scan) x y s = SameClaim-single scan.observations x y s

SameClaim-agreeing :
    (i n : ℕ) (ask : ℕ → Result RewardScan) (x y : RewardObservation)
    → SameClaim x y
    → agreeing i n ask y ≡ agreeing i n ask x
SameClaim-agreeing i zero ask x y s = refl
SameClaim-agreeing i (suc n) ask x y s =
    rw (SameClaim-agrees (ask i) x y s, SameClaim-agreeing (suc i) n ask x y s) refl

pub SameClaim-refl : (x : RewardObservation) → SameClaim x x
SameClaim-refl x = record {
  number = refl;
  at_hash = refl;
  at_time = refl;
  amounts = (refl, refl);
  verdict = refl;
}

SameClaim-trans : (x y z : RewardObservation) → SameClaim x y → SameClaim y z → SameClaim x z
SameClaim-trans x y z s t = record {
  number = cc (s.number, t.number);
  at_hash = cc (s.at_hash, t.at_hash);
  at_time = cc (s.at_time, t.at_time);
  amounts = (cc (s.amounts.0, t.amounts.0), cc (s.amounts.1, t.amounts.1));
  verdict = cc (s.verdict, t.verdict);
}

-- One round: the claim is kept, and the count rises only by a node that agrees.
confirm_step_lem :
    (i : ℕ) (now : Time) (answer : Result RewardScan) (es : List External) (x : RewardObservation)
    → SameClaim x (confirm_step i now answer (es, x)).1
      × ((confirm_step i now answer (es, x)).1.source_count
          ≤ x.source_count + (if agrees answer x then 1 else 0))
      × (x.source_count ≤ (confirm_step i now answer (es, x)).1.source_count)
unfolding confirm_step counted
confirm_step_lem i now answer es x = elim (Bool-cases (reward_external_ready i now es)) [
  | inl ready ↦ elim (Bool-cases (agrees answer x)) [
    | inl same ↦
        rw (ready, same)
          (
            record {
              number = refl;
              at_hash = refl;
              at_time = refl;
              amounts = (refl, refl);
              verdict = refl;
            },
            omega arith,
            omega arith,
          )
    | inr other ↦ rw (ready, other) (SameClaim-refl x, omega arith, omega arith)
  ]
  | inr early ↦ rw early (SameClaim-refl x, ground arith, omega arith)
]

pub confirm-SameClaim :
    (i n : ℕ) (now : Time) (ask : ℕ → Result RewardScan) (es : List External)
    (x : RewardObservation)
    → SameClaim x (confirm_reward_anomaly i n now ask (es, x)).1
      × ((confirm_reward_anomaly i n now ask (es, x)).1.source_count
          ≤ x.source_count + agreeing i n ask x)
      × (x.source_count ≤ (confirm_reward_anomaly i n now ask (es, x)).1.source_count)
unfolding confirm_reward_anomaly
confirm-SameClaim i zero now ask es x = (SameClaim-refl x, omega arith, omega arith)
confirm-SameClaim i (suc n) now ask es x =
    let s = confirm_step i now (ask i) (es, x) in
    let (same, up, down) = confirm_step_lem i now (ask i) es x in
    let (same', up', down') = confirm-SameClaim (suc i) n now ask s.0 s.1 in
    let e = SameClaim-agreeing (suc i) n ask x s.1 same in
    (SameClaim-trans x s.1 _ same same', ground arith, omega arith)

-- How often the node at `i` has failed.
abbrev pub fails_at : ℕ → List External → ℕ
fails_at i [] = 0
fails_at zero (e ∷ es) = e.fails
fails_at (suc i) (e ∷ es) = fails_at i es
