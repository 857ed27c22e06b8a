-- ===== src/Controller/Validate/Agreement.antt =====
-- The agent's scanner and the controller's check agree.
use collator.Prelude.{
  ◌-◌, ℤ, pos, ◌≤ℤ◌, ◌<ℤ◌, sub64, sub64_parts, two63, List, [], ◌∷◌, false, ◌≡◌, refl, ◌∙◌, arith,
  All,
}
use collator.Model.{ok, Returns, Returns-map, RewardObservation}
use collator.Reward.Monitor.{Rpc, Monitor, answer, scan}
use collator.Reward.Monitor.Recorded.{Reported, Rising, GoodScan, scan-Rising}
use collator.Controller.Validate.{
  validate_local_reward_scan, validate_iff, Acceptable, Fresh, seen_before,
}

-- All blocks seen are at most `lo`.
abbrev Seen : ℤ → List ℤ → Type 0
Seen lo = All (λ b. b ≤ℤ lo)

seen_before-above : (n lo : ℤ) (seen : List ℤ) → lo <ℤ n → Seen lo seen → seen_before n seen ≡ false
unfolding seen_before
seen_before-above n lo [] h s = refl
seen_before-above n lo (b ∷ bs) h (p, s) = ground (arith, seen_before-above n lo bs h s)

Seen-mono : (lo hi : ℤ) (seen : List ℤ) → lo ≤ℤ hi → Seen lo seen → Seen hi seen
Seen-mono lo hi [] h s = tt
Seen-mono lo hi (b ∷ bs) h (p, s) = (omega arith, Seen-mono lo hi bs h s)

Rising-Fresh :
    (to lo hi : ℤ) (seen : List ℤ) (xs : List RewardObservation)
    → Seen lo seen
    → Rising to lo hi xs
    → Fresh seen xs
Rising-Fresh to lo hi seen [] s r = tt
Rising-Fresh to lo hi seen (x ∷ xs) s (above, good, r) = (
  seen_before-above x.block_number lo seen above s,
  Rising-Fresh to x.block_number hi (x.block_number ∷ seen) xs
      (omega arith, Seen-mono lo x.block_number seen (omega arith) s) r,
)

Reported-Acceptable :
    (from to : ℤ) (x : RewardObservation)
    → from ≤ℤ x.block_number
    → Reported to x
    → Acceptable from to x
Reported-Acceptable from to x above r = record {
  above = above;
  below = r.in_range;
  hashed = r.hashed;
  single = r.single;
  verdict = ground (arith, r.verdict);
}

Rising-Acceptable :
    (from to lo hi : ℤ) (xs : List RewardObservation)
    → ((n : ℤ) → lo <ℤ n → from ≤ℤ n)
    → Rising to lo hi xs
    → All (Acceptable from to) xs
Rising-Acceptable from to lo hi [] h r = tt
Rising-Acceptable from to lo hi (x ∷ xs) h (above, good, r) = (
  Reported-Acceptable from to x (h x.block_number above) good,
  Rising-Acceptable from to x.block_number hi xs (λ n k. h n (omega arith)) r,
)

-- For every node, a positive start and an end below the last int64: what the scan of a monitor named
-- `local` reports, if it succeeds, passes the controller's check of that range.
pub scan-validate :
    {W : Type 0} (rpc : Rpc W) (m : Monitor) (from to : ℤ) (w : W)
    → m.source ≡ "local"
    → pos 0 <ℤ from
    → from <ℤ pos (two63 - 1)
    → to <ℤ pos (two63 - 1)
    → Returns (λ s. validate_local_reward_scan s from to ≡ ok tt) (answer (scan rpc m from to) w)
scan-validate rpc m from to w named start early late =
    Returns-map (GoodScan m from to) (λ s. validate_local_reward_scan s from to ≡ ok tt)
      (answer (scan rpc m from to) w)
      (λ s (at_from, at_to, source, (hi, rising)). (validate_iff s from to).1 (
        source ∙ named,
        at_from,
        at_to,
        Rising-Acceptable from to (sub64 from (pos 1)) hi s.observations
            (λ n h. omega (arith, sub64_parts from (pos 1))) rising,
        Rising-Fresh to (sub64 from (pos 1)) hi [] s.observations tt rising,
      ))
      (scan-Rising rpc m from to w late)
