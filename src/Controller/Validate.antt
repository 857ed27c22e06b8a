-- ===== src/Controller/Validate.antt =====
-- `validateLocalRewardScan` of cmd/controller/main.go: what it accepts, and that it accepts what the
-- agent's monitor reports.
pub mod Agreement
use collator.Prelude.{
  ℕ, ◌+◌, ◌≤◌, ◌<◌, ℤ, pos, pos_part, neg_part, ◌≤ℤ◌, ◌<ℤ◌, ltb_ℤ, eqb_ℤ, eq_of_parts, List, [],
  ◌∷◌, Bool, true, false, not, ◌&&◌, ◌||◌, ◌==◌, if◌then◌else◌, String, ◌=?◌, =?_iff, ◌≡◌, refl,
  arith, All, ◌⊎◌, inl, inr, ◌↔◌, Bool-cases, ◌≢◌,
}
use collator.Model.{Error, plain, Result, ok, err, RewardObservation, RewardScan, is_ok}

-- `observation.BlockNumber < from || ... || observation.SourceCount != 1`
unfoldable pub is_bad_observation : ℤ → ℤ → RewardObservation → Bool
is_bad_observation from to x =
    ltb_ℤ x.block_number from
    || (ltb_ℤ to x.block_number || (x.block_hash =? "" || not (x.source_count == 1)))

unfoldable pub is_verdict : String → Bool
is_verdict v =
    v =? "confirmed" || (v =? "confirmed_extra" || (v =? "insufficient" || v =? "pot_empty"))

-- A key of the map `seen`.
unfoldable pub seen_before : ℤ → List ℤ → Bool
seen_before n [] = false
seen_before n (b ∷ bs) = eqb_ℤ b n || seen_before n bs

unfoldable pub check_reports : ℤ → ℤ → List ℤ → List RewardObservation → Result (Unit {0})
unfolding is_bad_observation is_verdict seen_before
check_reports from to seen [] = ok tt
check_reports from to seen (x ∷ xs) =
    let rest = check_reports from to (x.block_number ∷ seen) xs in
    if is_bad_observation from to x
    then err (plain "invalid local reward observation")
    else (if not (is_verdict x.verification)
        then err (plain "invalid local reward verification")
        else (if seen_before x.block_number seen
            then err (plain "duplicate local reward observation")
            else rest))

unfoldable pub validate_local_reward_scan : RewardScan → ℤ → ℤ → Result (Unit {0})
unfolding check_reports
validate_local_reward_scan scan from to =
    if not (scan.source =? "local") || (not (eqb_ℤ scan.from from) || not (eqb_ℤ scan.to to))
    then err (plain "invalid local reward scan envelope")
    else check_reports from to [] scan.observations

-- What an accepted report says of itself.
pub record Acceptable (from to : ℤ) (x : RewardObservation) : Type 0 where
  pub above : from ≤ℤ x.block_number
  pub below : x.block_number ≤ℤ to
  pub hashed : (x.block_hash =? "") ≡ false
  pub single : x.source_count ≡ 1
  pub verdict :
      (x.verification ≡ "confirmed")
      ⊎ (x.verification ≡ "confirmed_extra")
      ⊎ (x.verification ≡ "insufficient")
      ⊎ (x.verification ≡ "pot_empty")

-- No two reports are of one block, nor is one of a block seen before.
abbrev pub Fresh : List ℤ → List RewardObservation → Type 0
Fresh seen [] = Unit
Fresh seen (x ∷ xs) = (seen_before x.block_number seen ≡ false) × Fresh (x.block_number ∷ seen) xs

Acceptable-iff :
    (from to : ℤ) (x : RewardObservation)
    → ((is_bad_observation from to x ≡ false) × (is_verdict x.verification ≡ true))
      ↔ Acceptable from to x
unfolding is_bad_observation is_verdict
Acceptable-iff from to x = (
  λ h. ground (
    arith,
    =?_iff x.verification "confirmed",
    =?_iff x.verification "confirmed_extra",
    =?_iff x.verification "insufficient",
    =?_iff x.verification "pot_empty",
  ),
  λ a. ground (
    arith,
    =?_iff x.verification "confirmed",
    =?_iff x.verification "confirmed_extra",
    =?_iff x.verification "insufficient",
    =?_iff x.verification "pot_empty",
  ),
)

check_reports_to :
    (from to : ℤ) (seen : List ℤ) (xs : List RewardObservation)
    → check_reports from to seen xs ≡ ok tt
    → All (Acceptable from to) xs × Fresh seen xs
unfolding check_reports
check_reports_to from to seen [] h = (tt, tt)
check_reports_to from to seen (x ∷ xs) h =
    let (fine, verdict, new, rest) = parts in
    let (good, fresh) = check_reports_to from to (x.block_number ∷ seen) xs rest in
    (((Acceptable-iff from to x).0 (fine, verdict), good), (new, fresh))
  where
    parts :
        (is_bad_observation from to x ≡ false)
        × (is_verdict x.verification ≡ true)
        × (seen_before x.block_number seen ≡ false)
        × (check_reports from to (x.block_number ∷ seen) xs ≡ ok tt)
    parts = ground arith

check_reports_from :
    (from to : ℤ) (seen : List ℤ) (xs : List RewardObservation)
    → All (Acceptable from to) xs
    → Fresh seen xs
    → check_reports from to seen xs ≡ ok tt
unfolding check_reports
check_reports_from from to seen [] g f = refl
check_reports_from from to seen (x ∷ xs) (good, g) (new, f) =
    let (fine, verdict) = (Acceptable-iff from to x).1 good in
    rw (fine, verdict, new) (check_reports_from from to (x.block_number ∷ seen) xs g f)

-- A scan by the agent is accepted exactly if its envelope names the local node and the range, each
-- report is of a block of the range, with a hash, from one source and with one of the four
-- verdicts, and no two reports are of the same block.
pub validate_iff :
    (scan : RewardScan) (from to : ℤ)
    → (validate_local_reward_scan scan from to ≡ ok tt) ↔ (
        (scan.source ≡ "local")
        × (scan.from ≡ from)
        × (scan.to ≡ to)
        × All (Acceptable from to) scan.observations
        × Fresh [] scan.observations)
unfolding validate_local_reward_scan
validate_iff scan from to = (
  λ h.
      let (source, at_from, at_to, rest) = envelope h in
      let (good, fresh) = check_reports_to from to [] scan.observations rest in
      (source, at_from, at_to, good, fresh),
  λ (source, at_from, at_to, good, fresh). ground (
    arith,
    =?_iff scan.source "local",
    check_reports_from from to [] scan.observations good fresh,
  ),
)
  where
    envelope :
        validate_local_reward_scan scan from to ≡ ok tt
        → (scan.source ≡ "local")
          × (scan.from ≡ from)
          × (scan.to ≡ to)
          × (check_reports from to [] scan.observations ≡ ok tt)
    envelope h =
        ground
          (arith, =?_iff scan.source "local", eq_of_parts scan.from from, eq_of_parts scan.to to)
