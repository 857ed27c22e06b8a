-- ===== src/Controller/Backoff.antt =====
-- The retry times of cmd/controller/main.go: bounds, and that they never fall as failures add up.
use collator.Prelude.{
  ℕ, zero, suc, ◌+◌, ◌-◌, ◌*◌, ◌^◌, ◌≤◌, ◌<◌, min, minute, second, ltb, if◌then◌else◌, ◌≡◌, refl,
  arith, false, leb, ◌⊎◌, inl, inr, Bool-cases,
}

-- `rewardRetryBackoff`; the counts of failures are never negative.
unfoldable pub reward_retry_backoff : ℕ → ℕ
reward_retry_backoff failures =
    let n = if ltb failures 1 then 1 else failures in
    let backoff = minute * 2 ^ min (n - 1) 4 in
    if ltb (15 * minute) backoff then 15 * minute else backoff

abbrev pub reward_scan_interval : ℕ
reward_scan_interval = 15 * second

-- `rewardScanRetryBackoff`
unfoldable pub reward_scan_retry_backoff : ℕ → ℕ
reward_scan_retry_backoff failures =
    let n = if ltb failures 1 then 1 else failures in
    let backoff = reward_scan_interval * 2 ^ min (n - 1) 5 in
    if ltb (5 * minute) backoff then 5 * minute else backoff

-- Both are constant from some count on.
retry_late : (n : ℕ) → 5 ≤ n → reward_retry_backoff n ≡ 15 * minute
unfolding reward_retry_backoff
retry_late n h =
    let e : min (n - 1) 4 ≡ 4 = omega arith in let k : ltb n 1 ≡ false = ground arith in rw (k, e)

scan_late : (n : ℕ) → 6 ≤ n → reward_scan_retry_backoff n ≡ 5 * minute
unfolding reward_scan_retry_backoff
scan_late n h =
    let e : min (n - 1) 5 ≡ 5 = omega arith in let k : ltb n 1 ≡ false = ground arith in rw (k, e)

retry_step : (n : ℕ) → reward_retry_backoff n ≤ reward_retry_backoff (suc n)
unfolding reward_retry_backoff
retry_step zero = omega arith
retry_step (suc zero) = omega arith
retry_step (suc (suc zero)) = omega arith
retry_step (suc (suc (suc zero))) = omega arith
retry_step (suc (suc (suc (suc zero)))) = omega arith
retry_step (suc (suc (suc (suc (suc n))))) = omega (
  arith,
  retry_late (suc (suc (suc (suc (suc n))))) (omega arith),
  retry_late (suc (suc (suc (suc (suc (suc n)))))) (omega arith),
)

retry_rise : (m d : ℕ) → reward_retry_backoff m ≤ reward_retry_backoff (m + d)
retry_rise m zero = let e : m + 0 ≡ m = omega arith in rw e (omega arith)
retry_rise m (suc d) =
    let e : m + suc d ≡ suc (m + d) = omega arith in
    rw e (omega (arith, retry_rise m d, retry_step (m + d)))

scan_step : (n : ℕ) → reward_scan_retry_backoff n ≤ reward_scan_retry_backoff (suc n)
unfolding reward_scan_retry_backoff
scan_step zero = omega arith
scan_step (suc zero) = omega arith
scan_step (suc (suc zero)) = omega arith
scan_step (suc (suc (suc zero))) = omega arith
scan_step (suc (suc (suc (suc zero)))) = omega arith
scan_step (suc (suc (suc (suc (suc zero))))) = omega arith
scan_step (suc (suc (suc (suc (suc (suc n)))))) = omega (
  arith,
  scan_late (suc (suc (suc (suc (suc (suc n)))))) (omega arith),
  scan_late (suc (suc (suc (suc (suc (suc (suc n))))))) (omega arith),
)

scan_rise : (m d : ℕ) → reward_scan_retry_backoff m ≤ reward_scan_retry_backoff (m + d)
scan_rise m zero = let e : m + 0 ≡ m = omega arith in rw e (omega arith)
scan_rise m (suc d) =
    let e : m + suc d ≡ suc (m + d) = omega arith in
    rw e (omega (arith, scan_rise m d, scan_step (m + d)))

retry_first : reward_retry_backoff 0 ≡ minute
unfolding reward_retry_backoff
retry_first = refl

retry_least : (m : ℕ) → minute ≤ reward_retry_backoff m
retry_least m =
    let e : 0 + m ≡ m = omega arith in omega (arith, retry_first, rw e at (retry_rise 0 m))

retry_most : (m : ℕ) → reward_retry_backoff m ≤ 15 * minute
retry_most m = omega (arith, retry_rise m 5, retry_late (m + 5) (omega arith))

scan_first : reward_scan_retry_backoff 0 ≡ reward_scan_interval
unfolding reward_scan_retry_backoff
scan_first = refl

scan_least : (m : ℕ) → reward_scan_interval ≤ reward_scan_retry_backoff m
scan_least m = let e : 0 + m ≡ m = omega arith in omega (arith, scan_first, rw e at (scan_rise 0 m))

scan_most : (m : ℕ) → reward_scan_retry_backoff m ≤ 5 * minute
scan_most m = omega (arith, scan_rise m 6, scan_late (m + 6) (omega arith))

-- The wait after a failure never falls as failures add up. It lies between one and fifteen minutes
-- for a public node, and between fifteen seconds and five minutes for the scan of the history; the
-- upper ends are reached at the fifth and at the sixth failure.
pub backoff_bounds :
    (m n : ℕ)
    → m ≤ n
    → (reward_retry_backoff m ≤ reward_retry_backoff n)
      × (minute ≤ reward_retry_backoff m)
      × (reward_retry_backoff m ≤ 15 * minute)
      × (reward_scan_retry_backoff m ≤ reward_scan_retry_backoff n)
      × (reward_scan_interval ≤ reward_scan_retry_backoff m)
      × (reward_scan_retry_backoff m ≤ 5 * minute)
      × ((m < 5) ⊎ (reward_retry_backoff m ≡ 15 * minute))
      × ((m < 6) ⊎ (reward_scan_retry_backoff m ≡ 5 * minute))
backoff_bounds m n h =
    let e : m + (n - m) ≡ n = omega arith in
    (
      rw e at (retry_rise m (n - m)),
      retry_least m,
      retry_most m,
      rw e at (scan_rise m (n - m)),
      scan_least m,
      scan_most m,
      elim (Bool-cases (leb 5 m)) [
        | inl many ↦ inr (retry_late m (ground arith))
        | inr few ↦ inl (ground arith)
      ],
      elim (Bool-cases (leb 6 m)) [
        | inl many ↦ inr (scan_late m (ground arith))
        | inr few ↦ inl (ground arith)
      ],
    )
