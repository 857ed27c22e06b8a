-- ===== src/Rules/Timers.antt =====
-- The six timers of the evaluator against the history of samples: a timed signal is raised exactly
-- if its condition has persisted for the time that the rule asks.
use collator.Prelude.{
  ℕ, ◌+◌, ◌*◌, ◌≤◌, ◌<◌, minute, two63, Time, elapsed, elapsed_lem, List, [], ◌∷◌, Bool, true, ◌&&◌,
  ◌≡◌, refl, ap, arith, ◌⊎◌, inl, inr, ◌↔◌, Bool-cases, leb,
}
use collator.Model.{Overview}
use collator.Rules.{
  Evaluator, Signal, fresh, is_inactive, is_lag_critical, is_lag_warning, has_no_peers,
  has_few_peers, is_memory_high, evaluate, held_since,
}
use collator.Rules.Signals.{
  raises, frames, raises-inactive, raises-lag_critical, raises-lag_warning, raises-zero_peers,
  raises-low_peers, raises-memory_high,
}

pub record Sample : Type 0 where
  pub at : Time
  pub state : Overview

-- The evaluator after the samples, the newest first.
abbrev pub replay : List Sample → Evaluator
replay [] = fresh
replay (x ∷ h) = (evaluate (replay h) x.at x.state).0

-- The signals that the newest sample raises.
abbrev pub latest : Sample → List Sample → List Signal
latest x h = (evaluate (replay h) x.at x.state).1

-- The samples are in the order of their times, and the clock is set.
abbrev pub Ordered : Time → List Sample → Type 0
Ordered now [] = Unit
Ordered now (x ∷ h) = (0 < x.at) × (x.at ≤ now) × Ordered x.at h

-- Going back from the newest sample, the condition holds in each up to one that is `limit` old.
abbrev pub Persisted : (Overview → Bool) → ℕ → Time → List Sample → Type 0
Persisted c limit now [] = ⊥
Persisted c limit now (x ∷ h) =
    (c x.state ≡ true) × ((x.at + limit ≤ now) ⊎ Persisted c limit now h)

-- A timer alone.
abbrev holding : (Overview → Bool) → List Sample → Time
holding c [] = 0
holding c (x ∷ h) = held_since (c x.state) x.at (holding c h)

module _ (c : Overview → Bool) (limit : ℕ) (now : Time) where
  holding-le : (t : Time) (h : List Sample) → Ordered t h → holding c h ≤ t
  unfolding held_since
  holding-le t [] o = omega arith
  holding-le t (x ∷ h) (p, q, o) = ground (arith, holding-le x.at h o)

  Persisted-to :
      (t : Time) (h : List Sample)
      → Ordered t h
      → Persisted c limit now h
      → (0 < holding c h) × (holding c h + limit ≤ now)
  unfolding held_since
  Persisted-to t [] o p = absurd p
  Persisted-to t (x ∷ h) (pos_at, le_now, o) (holds, inl old) =
      ground (arith, holds, holding-le x.at h o)
  Persisted-to t (x ∷ h) (pos_at, le_now, o) (holds, inr older) =
      ground (arith, holds, Persisted-to x.at h o older)

  Persisted-from :
      (t : Time) (h : List Sample)
      → Ordered t h
      → 0 < holding c h
      → holding c h + limit ≤ now
      → Persisted c limit now h
  unfolding held_since
  Persisted-from t [] o p q = absurd (omega arith)
  Persisted-from t (x ∷ h) (pos_at, le_now, o) p q = elim (Bool-cases (c x.state)) [
    | inl holds ↦ (
      holds,
      elim (Bool-cases (leb (x.at + limit) now)) [
        | inl old ↦ inl (ground arith)
        | inr young ↦ inr (Persisted-from x.at h o (ground arith) (ground arith))
      ],
    )
    | inr fails ↦ absurd (ground arith)
  ]

held_since-pos :
    (holds : Bool) (now start : Time) → 0 < now → holds ≡ true → 0 < held_since holds now start
unfolding held_since
held_since-pos holds now start p h = ground arith

timer-Persisted :
    (c : Overview → Bool) (limit : ℕ) (x : Sample) (h : List Sample)
    → limit < two63
    → Ordered x.at (x ∷ h)
    → ((c x.state && elapsed x.at (held_since (c x.state) x.at (holding c h)) limit) ≡ true)
      ↔ Persisted c limit x.at (x ∷ h)
timer-Persisted c limit x h small o = rw (elapsed_lem x.at (holding c (x ∷ h)) limit small) (
  λ on.
      Persisted-from c limit x.at x.at (x ∷ h) o
        (held_since-pos (c x.state) x.at (holding c h) o.0 (ground arith)) (ground arith),
  λ p. ground (arith, Persisted-to c limit x.at x.at (x ∷ h) o p, p.0),
)

replay-inactive : (h : List Sample) → (replay h).inactive_since ≡ holding is_inactive h
unfolding evaluate
replay-inactive [] = refl
replay-inactive (x ∷ h) =
    simp frames (ap (held_since (is_inactive x.state) x.at) (replay-inactive h))

replay-lag_critical : (h : List Sample) → (replay h).critical_lag_since ≡ holding is_lag_critical h
unfolding evaluate
replay-lag_critical [] = refl
replay-lag_critical (x ∷ h) =
    simp frames (ap (held_since (is_lag_critical x.state) x.at) (replay-lag_critical h))

replay-lag_warning : (h : List Sample) → (replay h).warn_lag_since ≡ holding is_lag_warning h
unfolding evaluate
replay-lag_warning [] = refl
replay-lag_warning (x ∷ h) =
    simp frames (ap (held_since (is_lag_warning x.state) x.at) (replay-lag_warning h))

replay-zero_peers : (h : List Sample) → (replay h).zero_peer_since ≡ holding has_no_peers h
unfolding evaluate
replay-zero_peers [] = refl
replay-zero_peers (x ∷ h) =
    simp frames (ap (held_since (has_no_peers x.state) x.at) (replay-zero_peers h))

replay-low_peers : (h : List Sample) → (replay h).low_peer_since ≡ holding has_few_peers h
unfolding evaluate
replay-low_peers [] = refl
replay-low_peers (x ∷ h) =
    simp frames (ap (held_since (has_few_peers x.state) x.at) (replay-low_peers h))

replay-memory_high : (h : List Sample) → (replay h).high_memory_since ≡ holding is_memory_high h
unfolding evaluate
replay-memory_high [] = refl
replay-memory_high (x ∷ h) =
    simp frames (ap (held_since (is_memory_high x.state) x.at) (replay-memory_high h))

-- For every history of samples in the order of their times, the newest sample raises each of the
-- six timed signals exactly if the signal's condition has held, in every sample from one at least
-- as old as the rule's limit up to the newest: one minute for an inactive service, ten and five
-- minutes for a lag above 120 and 30 blocks, three for no peers at an active service, five for one
-- or two peers, ten for memory at 90 percent or more.
pub timed_signals :
    (x : Sample) (h : List Sample)
    → Ordered x.at (x ∷ h)
    → ((raises "service-inactive" (latest x h) ≡ true) ↔ Persisted is_inactive minute x.at (x ∷ h))
      × ((raises "sync-lag-critical" (latest x h) ≡ true)
          ↔ Persisted is_lag_critical (10 * minute) x.at (x ∷ h))
      × ((raises "sync-lag-warning" (latest x h) ≡ true)
          ↔ Persisted is_lag_warning (5 * minute) x.at (x ∷ h))
      × ((raises "peers-zero" (latest x h) ≡ true)
          ↔ Persisted has_no_peers (3 * minute) x.at (x ∷ h))
      × ((raises "peers-low" (latest x h) ≡ true)
          ↔ Persisted has_few_peers (5 * minute) x.at (x ∷ h))
      × ((raises "memory-high" (latest x h) ≡ true)
          ↔ Persisted is_memory_high (10 * minute) x.at (x ∷ h))
timed_signals x h o = (
  rw (raises-inactive (replay h) x.at x.state, replay-inactive h)
      (timer-Persisted is_inactive minute x h (omega arith) o),
  rw (raises-lag_critical (replay h) x.at x.state, replay-lag_critical h)
      (timer-Persisted is_lag_critical (10 * minute) x h (omega arith) o),
  rw (raises-lag_warning (replay h) x.at x.state, replay-lag_warning h)
      (timer-Persisted is_lag_warning (5 * minute) x h (omega arith) o),
  rw (raises-zero_peers (replay h) x.at x.state, replay-zero_peers h)
      (timer-Persisted has_no_peers (3 * minute) x h (omega arith) o),
  rw (raises-low_peers (replay h) x.at x.state, replay-low_peers h)
      (timer-Persisted has_few_peers (5 * minute) x h (omega arith) o),
  rw (raises-memory_high (replay h) x.at x.state, replay-memory_high h)
      (timer-Persisted is_memory_high (10 * minute) x h (omega arith) o),
)
