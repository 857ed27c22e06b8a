-- ===== src/Controller/Recovery.antt =====
-- `verifyRecovery` of cmd/controller/main.go: after a restart it waits for the service to become
-- active and for the finalized block to pass the one before the restart.
use collator.Prelude.{
  ℕ, zero, suc, ◌+◌, ◌*◌, ◌≤◌, ℤ, ltb_ℤ, Time, second, minute, before, after, Bool, true, false,
  not, ◌&&◌, ◌||◌, if◌then◌else◌, Option, none, some, String, ◌=?◌, ◌≡◌, refl, ◌∙◌, arith,
  Bool-cases, inl, inr, ◌⊎◌,
}
use collator.Model.{plain, Result, ok, err}

-- One round of the loop: the clock at its head, the state of the service that the agent reports, the
-- clock at the first deadline, the finalized block of the metrics, and whether the context ends
-- before the pause does. A call that fails gives `none`.
pub record Round : Type 0 where
  pub head : Time
  pub service_state : Option String
  pub at_deadline : Time
  pub finalized : Option ℤ
  pub cancelled : Bool

abbrev pub is_active : Option String → Bool
is_active none = false
is_active (some state) = state =? "active"

abbrev pub has_passed : ℤ → Option ℤ → Bool
has_passed baseline none = false
has_passed baseline (some finalized) = ltb_ℤ baseline finalized

abbrev pub pause : ℕ
pause = 15 * second

-- What a round decides; `none` is another round.
unfoldable pub decided : Bool → Bool → Bool → Bool → Option (Result (Unit {0}))
decided active late passed cancelled =
    if not active && late
    then some (err (plain "service did not become active within two minutes"))
    else (if active && passed
        then some (ok tt)
        else (if cancelled then some (err (plain "context ended")) else none))

unfoldable pub round_result : Time → ℤ → Bool → Round → Option (Result (Unit {0}))
unfolding decided
round_result active_deadline baseline active r =
    decided active (after r.at_deadline active_deadline) (has_passed baseline r.finalized)
      r.cancelled

abbrev pub or_again :
    Option (Result (Unit {0})) → Option (Result (Unit {0})) → Option (Result (Unit {0}))
or_again none again = again
or_again (some verdict) again = some verdict

-- The loop from the round `i` on. `none` says that the fuel has run out.
unfoldable pub wait_rounds :
    ℕ → (ℕ → Round) → Time → Time → ℤ → Bool → ℕ → Option (Result (Unit {0}))
unfolding round_result
wait_rounds zero rounds active_deadline block_deadline baseline active i = none
wait_rounds (suc fuel) rounds active_deadline block_deadline baseline active i =
    let r = rounds i in
    let active' = active || is_active r.service_state in
    let again = wait_rounds fuel rounds active_deadline block_deadline baseline active' (suc i) in
    if before r.head block_deadline
    then or_again (round_result active_deadline baseline active' r) again
    else some (err (plain "finalized block did not advance within ten minutes"))

-- Ten minutes have at most 41 heads of rounds that are 15 seconds apart.
abbrev pub recovery_fuel : ℕ
recovery_fuel = 41

-- `verifyRecovery`, which reads the clock once for each of its two deadlines.
unfoldable pub verify_recovery : (ℕ → Round) → Time → Time → ℤ → Option (Result (Unit {0}))
unfolding wait_rounds
verify_recovery rounds now later baseline =
    wait_rounds recovery_fuel rounds (now + 2 * minute) (later + 10 * minute) baseline false 0

-- The clock does not stand before the start, and a round begins no sooner than one pause after the
-- round before it.
pub record Paced (rounds : ℕ → Round) (later : Time) : Type 0 where
  pub start : later ≤ (rounds 0).head
  pub paced : (i : ℕ) → (rounds i).head + pause ≤ (rounds (suc i)).head

head_after :
    (rounds : ℕ → Round) (later : Time)
    → Paced rounds later
    → (i : ℕ) → later + i * pause ≤ (rounds i).head
head_after rounds later p zero = let h = p.start in omega arith
head_after rounds later p (suc i) =
    let h = head_after rounds later p i in let k = p.paced i in omega arith

-- Whether one of the first `i` rounds saw the service active.
abbrev pub seen_active : (ℕ → Round) → ℕ → Bool
seen_active rounds zero = false
seen_active rounds (suc i) = seen_active rounds i || is_active (rounds i).service_state

-- Why the loop gives the verdict in the round `i`.
abbrev pub Grounds : (ℕ → Round) → Time → Time → ℤ → ℕ → Result (Unit {0}) → Type 0
Grounds rounds active_deadline block_deadline baseline i verdict =
    ((verdict ≡ ok tt)
      × (seen_active rounds (suc i) ≡ true)
      × (has_passed baseline (rounds i).finalized ≡ true)
      × (before (rounds i).head block_deadline ≡ true))
    ⊎ ((verdict ≡ err (plain "service did not become active within two minutes"))
        × (seen_active rounds (suc i) ≡ false)
        × (after (rounds i).at_deadline active_deadline ≡ true))
    ⊎ ((verdict ≡ err (plain "context ended")) × ((rounds i).cancelled ≡ true))
    ⊎ ((verdict ≡ err (plain "finalized block did not advance within ten minutes"))
        × (before (rounds i).head block_deadline ≡ false))

decided_grounds :
    (active late passed cancelled : Bool)
    → (decided active late passed cancelled ≡ none)
      ⊎ ((decided active late passed cancelled ≡ some (ok tt)) × (active ≡ true) × (passed ≡ true))
      ⊎ ((decided active late passed cancelled
            ≡ some (err (plain "service did not become active within two minutes")))
          × (active ≡ false)
          × (late ≡ true))
      ⊎ ((decided active late passed cancelled ≡ some (err (plain "context ended")))
          × (cancelled ≡ true))
unfolding decided
decided_grounds false true passed cancelled = inr (inr (inl (refl, refl, refl)))
decided_grounds false false passed false = inl refl
decided_grounds false false passed true = inr (inr (inr (refl, refl)))
decided_grounds true late true cancelled = inr (inl (refl, refl, refl))
decided_grounds true late false false = inl refl
decided_grounds true late false true = inr (inr (inr (refl, refl)))

-- A round gives its verdict and the grounds, or it leaves the verdict to the rounds after it.
one_round :
    (rounds : ℕ → Round) (fuel : ℕ) (limit deadline : Time) (baseline : ℤ) (i : ℕ)
    → let loop = wait_rounds (suc fuel) rounds limit deadline baseline (seen_active rounds i) i in
      let rest =
        wait_rounds fuel rounds limit deadline baseline (seen_active rounds (suc i)) (suc i) in
      ((v : Result (Unit {0})) × (loop ≡ some v) × Grounds rounds limit deadline baseline i v)
      ⊎ ((before (rounds i).head deadline ≡ true) × (loop ≡ rest))
unfolding wait_rounds round_result
one_round rounds fuel limit deadline baseline i =
    elim (Bool-cases (before (rounds i).head deadline)) [
      | inr e ↦ inl (
        err (plain "finalized block did not advance within ten minutes"),
        rw e,
        inr (inr (inr (refl, e))),
      )
      | inl e ↦
          elim (decided_grounds (seen_active rounds (suc i)) (after (rounds i).at_deadline limit)
            (has_passed baseline (rounds i).finalized) (rounds i).cancelled) [
              | inl q ↦ inr (e, rw (e, q))
              | inr (inl (q, a, b)) ↦ inl (ok tt, rw (e, q), inl (refl, a, b, e))
              | inr (inr (inl (q, a, b))) ↦ inl (
                err (plain "service did not become active within two minutes"),
                rw (e, q),
                inr (inl (refl, a, b)),
              )
              | inr (inr (inr (q, a))) ↦
                  inl (err (plain "context ended"), rw (e, q), inr (inr (inl (refl, a))))
            ]
    ]

-- The loop ends within its fuel, in a round `k` that gives the grounds.
wait_rounds_end :
    (rounds : ℕ → Round) (later : Time)
    → Paced rounds later
    → (fuel : ℕ) (limit deadline : Time) (baseline : ℤ) (i : ℕ)
    → deadline ≤ later + (fuel + i) * pause
    → (v : Result (Unit {0})) × (wait_rounds
          (suc fuel)
          rounds
          limit
          deadline
          baseline
          (seen_active rounds i)
          i
        ≡ some v)
      × (k : ℕ) × (k ≤ fuel + i)
      × Grounds rounds limit deadline baseline k v
wait_rounds_end rounds later p zero limit deadline baseline i h =
    elim (one_round rounds zero limit deadline baseline i) [
      | inl (v, d, g) ↦ (v, d, i, omega arith, g)
      | inr (e, d) ↦ let late = head_after rounds later p i in absurd (ground arith)
    ]
wait_rounds_end rounds later p (suc fuel) limit deadline baseline i h =
    elim (one_round rounds (suc fuel) limit deadline baseline i) [
      | inl (v, d, g) ↦ (v, d, i, omega arith, g)
      | inr (e, d) ↦
          let (v, f, k, l, g) =
            wait_rounds_end rounds later p fuel limit deadline baseline (suc i) (omega arith) in
          (v, d ∙ f, k, omega arith, g)
    ]

-- When the rounds are at least fifteen seconds apart, `verifyRecovery` returns, in one of its first
-- 41 rounds. It returns no error only in a round that starts within the ten minutes, in which the
-- service has been seen active, in this round or before, and the finalized block is past the one
-- before the restart. It gives each of its errors on the grounds that the error names: the service
-- was not seen active and the two minutes are over, the context has ended, or the ten minutes are
-- over.
pub verify_recovery_ends :
    (rounds : ℕ → Round) (now later : Time) (baseline : ℤ)
    → Paced rounds later
    → (v : Result (Unit {0})) × (verify_recovery rounds now later baseline ≡ some v)
      × (k : ℕ) × (k ≤ 40)
      × Grounds rounds (now + 2 * minute) (later + 10 * minute) baseline k v
unfolding verify_recovery
verify_recovery_ends rounds now later baseline p =
    let (v, d, k, l, g) =
      wait_rounds_end rounds later p 40 (now + 2 * minute) (later + 10 * minute) baseline 0
        (omega arith) in
    (v, d, k, omega arith, g)
