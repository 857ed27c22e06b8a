-- ===== src/Controller/History/Safety.antt =====
-- What one step of the scan may leave.
use collator.Prelude.{
  zero, suc, ◌+◌, ◌≤◌, ℤ, ◌≤ℤ◌, ltb_ℤ, Time, ltb, List, [], ◌∷◌, true, false, none, some, ◌≡◌, refl,
  arith, ◌⊎◌, inl, inr, Bool-cases,
}
use collator.Model.{Error, Result, ok, err, RewardOverview, RewardObservation, RewardScan}
use collator.Store.{Db}
use collator.Store.Scan.{Applied, Atomic}
use collator.Controller.Backoff.{reward_scan_interval, reward_scan_retry_backoff}
use collator.Controller.Validate.{validate_local_reward_scan}
use collator.Controller.Externals.{External}
use collator.Controller.Externals.Confirmed.{SameClaim, SameClaim-refl, confirm-SameClaim}
use collator.Controller.History.{
  ScanState, Dependencies, Outcome, fail_reward_scan, confirm_one, advance_block, advance_reward,
  is_anomaly, settle, committed, is_idle,
}

-- Pairwise the same claim.
abbrev pub SameClaims : List RewardObservation → List RewardObservation → Type 0
SameClaims [] [] = Unit
SameClaims [] (y ∷ ys) = ⊥
SameClaims (x ∷ xs) [] = ⊥
SameClaims (x ∷ xs) (y ∷ ys) = SameClaim x y × SameClaims xs ys

-- The overview has not gone back.
pub record Ahead (o o' : RewardOverview) : Type 0 where
  pub authored : o.last_authored_block ≤ℤ o'.last_authored_block
  pub rewarded : o.last_reward_at ≤ o'.last_reward_at
  pub recovery : o'.recovery ≡ o.recovery

-- Each observation is of a block, and of a time, that the overview knows of.
abbrev pub Covered : RewardOverview → List RewardObservation → Type 0
Covered o [] = Unit
Covered o (x ∷ xs) =
    (x.block_number ≤ℤ o.last_authored_block) × (x.authored_at ≤ o.last_reward_at) × Covered o xs

Ahead-trans : (o p q : RewardOverview) → Ahead o p → Ahead p q → Ahead o q
Ahead-trans o p q s t = record {
  authored = omega (arith, s.authored, t.authored);
  rewarded = omega (arith, s.rewarded, t.rewarded);
  recovery = cc (s.recovery, t.recovery);
}

advance_lem :
    (x : RewardObservation) (o : RewardOverview)
    → let o' = advance_reward x (advance_block x o) in
      Ahead o o' × (x.block_number ≤ℤ o'.last_authored_block) × (x.authored_at ≤ o'.last_reward_at)
unfolding advance_reward advance_block
advance_lem x o = elim (Bool-cases (ltb_ℤ o.last_authored_block x.block_number)) [
  | inl new ↦ elim (Bool-cases (ltb o.last_reward_at x.authored_at)) [
    | inl later ↦
        rw (new, later)
          (
            record { authored = ground arith; rewarded = ground arith; recovery = refl },
            omega arith,
            omega arith,
          )
    | inr not_later ↦
        rw (new, not_later)
          (
            record { authored = ground arith; rewarded = ground arith; recovery = refl },
            omega arith,
            ground arith,
          )
  ]
  | inr old ↦ elim (Bool-cases (ltb o.last_reward_at x.authored_at)) [
    | inl later ↦
        rw (old, later)
          (
            record { authored = ground arith; rewarded = ground arith; recovery = refl },
            ground arith,
            omega arith,
          )
    | inr not_later ↦
        rw (old, not_later)
          (
            record { authored = ground arith; rewarded = ground arith; recovery = refl },
            ground arith,
            ground arith,
          )
  ]
]

confirm_one-SameClaim :
    (d : Dependencies) (es : List External) (x : RewardObservation)
    → SameClaim x (confirm_one d es x).1
unfolding confirm_one
confirm_one-SameClaim d es x = elim (Bool-cases (is_anomaly x)) [
  | inl odd ↦
      rw odd (confirm-SameClaim zero d.nodes (d.clock x.block_number) (d.ask x.block_number) es x).0
  | inr plain_one ↦ rw plain_one (SameClaim-refl x)
]

-- The loop: the claims stay as they are, and the overview comes to know them all.
pub settle_lem :
    (d : Dependencies) (es : List External) (o : RewardOverview) (xs : List RewardObservation)
    → let s = settle d es o xs in SameClaims xs s.2 × Ahead o s.1 × Covered s.1 s.2
unfolding settle
settle_lem d es o [] =
    (tt, record { authored = omega arith; rewarded = omega arith; recovery = refl }, tt)
settle_lem d es o (x ∷ xs) =
    let y = (confirm_one d es x).1 in
    let o1 = advance_reward y (advance_block y o) in
    let (same, ahead, covered) = settle_lem d (confirm_one d es x).0 o1 xs in
    let (up, block, at) = advance_lem y o in
    (
      (confirm_one-SameClaim d es x, same),
      Ahead-trans o o1 _ up ahead,
      (omega (arith, ahead.authored), omega (arith, ahead.rewarded), covered),
    )

-- A step with nothing to do.
pub record Idle (now : Time) (c : ScanState) (db : Db) (previous : RewardOverview) (finalized : ℤ)
    (o : Outcome) : Type 0 where
  pub idle : is_idle now c previous finalized ≡ true
  pub unchanged : (o.state ≡ c) × (o.db ≡ db) × (o.overview ≡ previous)
  pub returned : (o.attempted ≡ false) × (o.error ≡ none)

-- A step that fails changes no table, and puts the next one off.
pub record Failed (now : Time) (c : ScanState) (db : Db) (previous : RewardOverview) (o : Outcome)
    : Type 0 where
  pub unchanged : (o.db ≡ db) × (o.overview ≡ previous)
  pub failures : o.state.scan_failures ≡ suc c.scan_failures
  pub next : o.state.scan_next ≡ now + reward_scan_retry_backoff (suc c.scan_failures)
  pub returned : (o.attempted ≡ true) × ((e : Error) × (o.error ≡ some e))

-- A step that succeeds: what was scanned, and what was written.
pub record Advanced (d : Dependencies) (now : Time) (db : Db) (previous : RewardOverview) (to : ℤ)
    (scan : RewardScan) (o : Outcome) : Type 0 where
  pub written : List RewardObservation
  pub claims : SameClaims scan.observations written
  pub applied : Applied db previous.last_scanned_block o.overview written o.db
  pub cursor : o.overview.last_scanned_block ≡ to
  pub ahead :
      (previous.last_authored_block ≤ℤ o.overview.last_authored_block)
      × (previous.last_reward_at ≤ o.overview.last_reward_at)
  pub covered : Covered o.overview written
  pub recovered : o.overview.recovery ≡ none
  pub returned : (o.attempted ≡ true) × (o.error ≡ none)
  pub next : (o.state.scan_failures ≡ 0) × (o.state.scan_next ≡ now + reward_scan_interval)

-- The scanner's answer, which passed the check.
abbrev pub Answered : Dependencies → ℤ → ℤ → RewardScan → Type 0
Answered d from to scan =
    ((scanner : ℤ → ℤ → Result RewardScan) × (d.scanner ≡ some scanner)
      × (scanner from to ≡ ok scan))
    × (validate_local_reward_scan scan from to ≡ ok tt)

abbrev pub Ended : Dependencies → Time → ScanState → Db → RewardOverview → ℤ → ℤ → Outcome → Type 0
Ended d now c db previous from to o =
    Failed now c db previous o
    ⊎ ((scan : RewardScan) × Answered d from to scan × Advanced d now db previous to scan o)

pub committed_lem :
    (now : Time) (c : ScanState) (db : Db) (previous next : RewardOverview)
    (xs : List RewardObservation) (r : Db × Result (Unit {0}))
    → Atomic db (λ db' _. Applied db previous.last_scanned_block next xs db') r
    → Failed now c db previous (committed now c previous next r)
      ⊎ (Applied db previous.last_scanned_block next xs r.0
          × (committed now c previous next r ≡ record {
            state = record c { scan_failures = 0; scan_next = now + reward_scan_interval };
            db = r.0;
            overview = next;
            attempted = true;
            error = none;
          }))
unfolding committed fail_reward_scan
committed_lem now c db previous next xs (db', ok _) a = inr (a, refl)
committed_lem now c db previous next xs (db', err e) a =
    inl
      (record { unchanged = (a, refl); failures = refl; next = refl; returned = (refl, (e, refl)) })
