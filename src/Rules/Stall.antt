-- ===== src/Rules/Stall.antt =====
-- The stall rule against the history of samples.
use collator.Prelude.{
  ◌+◌, ◌*◌, ◌≤◌, ◌<◌, ℤ, pos, ◌≤ℤ◌, ◌<ℤ◌, eq_of_parts, sub64, minute, Time, elapsed_lem, List, [],
  ◌∷◌, true, ◌≡◌, refl, arith, ◌⊎◌, inl, inr,
}
use collator.Model.{Overview}
use collator.Rules.{Evaluator, evaluate, service_check, progress_step, is_stalled, rebase_stall}
use collator.Rules.Signals.{raises, raises-stalled}
use collator.Rules.Timers.{Sample, replay, latest, Ordered}

abbrev height : Sample → ℤ
height x = x.state.chain.local_finalized

-- Every sample back to the one that set the evaluator's baseline shows its height, or none.
abbrev Froze : Evaluator → List Sample → Type 0
Froze e [] = ⊥
Froze e (a ∷ h) =
    ((height a ≤ℤ pos 0) ⊎ (height a ≡ e.last_finalized))
    × (((a.at ≡ e.last_progress)
          × (height a ≡ e.last_finalized)
          × (a.state.chain.external_a ≡ e.stall_external_a)
          × (a.state.chain.external_b ≡ e.stall_external_b))
        ⊎ Froze e h)

record Baseline (e : Evaluator) (h : List Sample) : Type 0 where
  froze : (e.last_progress ≡ 0) ⊎ Froze e h
  positive : 0 < e.last_progress → pos 0 <ℤ e.last_finalized

-- Only the four fields of the stall count.
abbrev SameBase : Evaluator → Evaluator → Type 0
SameBase e e' =
    (e.last_progress ≡ e'.last_progress)
    × (e.last_finalized ≡ e'.last_finalized)
    × (e.stall_external_a ≡ e'.stall_external_a)
    × (e.stall_external_b ≡ e'.stall_external_b)

Froze-same : (e e' : Evaluator) (h : List Sample) → SameBase e e' → Froze e h → Froze e' h
Froze-same e e' [] s f = f
Froze-same e e' (a ∷ h) s f = ground (arith, Froze-same e e' h s)

-- A call sets the baseline anew or keeps it.
abbrev Rebases : Time → Overview → Evaluator → Evaluator → Type 0
Rebases now s e e' = (e' ≡ rebase_stall now s e) × (pos 0 <ℤ s.chain.local_finalized)

abbrev Keeps : Overview → Evaluator → Evaluator → Type 0
Keeps s e e' =
    (e' ≡ e) × ((s.chain.local_finalized ≤ℤ pos 0) ⊎ (s.chain.local_finalized ≡ e.last_finalized))

progress_step_cases :
    (now : Time) (s : Overview) (e : Evaluator)
    → let e' = progress_step now s e in Rebases now s e e' ⊎ Keeps s e e'
unfolding progress_step
progress_step_cases now s e = ground (arith, eq_of_parts s.chain.local_finalized e.last_finalized)

step-Baseline :
    (e : Evaluator) (x : Sample) (h : List Sample)
    → 0 < x.at
    → Baseline e h
    → Baseline (progress_step x.at x.state e) (x ∷ h)
step-Baseline e x h p b = elim (progress_step_cases x.at x.state e) [
  | inl (set, up) ↦
      rw set (record { froze = inr (inr refl, inl (refl, refl, refl, refl)); positive = λ _. up })
  | inr (kept, same) ↦ rw kept (record {
    froze = elim b.froze [ inl unset ↦ inl unset | inr f ↦ inr (same, inr f) ];
    positive = b.positive;
  })
]

Baseline-same : (e e' : Evaluator) (h : List Sample) → SameBase e e' → Baseline e h → Baseline e' h
Baseline-same e e' h s b = record {
  froze = elim b.froze [ inl unset ↦ inl (ground arith) | inr f ↦ inr (Froze-same e e' h s f) ];
  positive = λ p. ground (arith, b.positive);
}

-- The evaluator between the first two blocks of a call.
abbrev stepped : Sample → Evaluator → Evaluator
stepped x e = progress_step x.at x.state (service_check x.at x.state e).0

stepped-Baseline :
    (e : Evaluator) (x : Sample) (h : List Sample)
    → 0 < x.at
    → Baseline e h
    → Baseline (stepped x e) (x ∷ h)
unfolding service_check
stepped-Baseline e x h p b =
    step-Baseline (service_check x.at x.state e).0 x h p
      (Baseline-same e (service_check x.at x.state e).0 h (refl, refl, refl, refl) b)

replay-Baseline : (t : Time) (h : List Sample) → Ordered t h → Baseline (replay h) h
unfolding evaluate
replay-Baseline t [] o = record { froze = inl refl; positive = λ p. absurd (omega arith) }
replay-Baseline t (x ∷ h) o =
    Baseline-same (stepped x (replay h)) (replay (x ∷ h)) (x ∷ h) (refl, refl, refl, refl)
      (stepped-Baseline (replay h) x h o.0 (replay-Baseline x.at h o.2))

Baseline-Froze : (e : Evaluator) (h : List Sample) → Baseline e h → 0 < e.last_progress → Froze e h
Baseline-Froze e h b p = elim b.froze [ inl unset ↦ absurd (omega arith) | inr f ↦ f ]

-- Every sample back to `a` shows the finalized height that `a` shows, or none; `a` is at least five
-- minutes older than `x`, and both external heights have grown by 20 blocks or more from it.
abbrev pub StalledAt : ℤ → Sample → List Sample → Type 0
StalledAt frozen x [] = ⊥
StalledAt frozen x (a ∷ h) =
    ((height a ≤ℤ pos 0) ⊎ (height a ≡ frozen))
    × (((height a ≡ frozen)
          × (a.at + 5 * minute ≤ x.at)
          × (pos 20 ≤ℤ sub64 x.state.chain.external_a a.state.chain.external_a)
          × (pos 20 ≤ℤ sub64 x.state.chain.external_b a.state.chain.external_b))
        ⊎ StalledAt frozen x h)

Froze-StalledAt :
    (e : Evaluator) (x : Sample) (h : List Sample)
    → e.last_progress + 5 * minute ≤ x.at
    → pos 20 ≤ℤ sub64 x.state.chain.external_a e.stall_external_a
    → pos 20 ≤ℤ sub64 x.state.chain.external_b e.stall_external_b
    → Froze e h
    → StalledAt e.last_finalized x h
Froze-StalledAt e x [] p q r f = f
Froze-StalledAt e x (a ∷ h) p q r (same, inl (at, shown, ea, eb)) =
    (same, inl (shown, omega (arith, at), rw ea q, rw eb r))
Froze-StalledAt e x (a ∷ h) p q r (same, inr f) = (same, inr (Froze-StalledAt e x h p q r f))

-- The evidence in a test that came out true.
stalled_evidence :
    (now : Time) (s : Overview) (e : Evaluator)
    → is_stalled now s e ≡ true
    → (0 < e.last_progress)
      × (e.last_progress + 5 * minute ≤ now)
      × (pos 20 ≤ℤ sub64 s.chain.external_a e.stall_external_a)
      × (pos 20 ≤ℤ sub64 s.chain.external_b e.stall_external_b)
unfolding is_stalled
stalled_evidence now s e h =
    ground (arith, elapsed_lem now e.last_progress (5 * minute) (omega arith))

-- A stall is reported only on evidence: if the newest of a history of samples in the order of their
-- times raises `block-stalled`, then some positive finalized height stands still in the history.
-- Every sample from some earlier one to the newest shows that height or none, the earlier one is
-- five minutes old or more, and each external chain has grown by at least 20 blocks since.
pub stall_has_evidence :
    (x : Sample) (h : List Sample)
    → Ordered x.at (x ∷ h)
    → raises "block-stalled" (latest x h) ≡ true
    → (frozen : ℤ) × (pos 0 <ℤ frozen) × StalledAt frozen x (x ∷ h)
stall_has_evidence x h o raised =
    let e = stepped x (replay h) in
    let base = stepped-Baseline (replay h) x h o.0 (replay-Baseline x.at h o.2) in
    let seen =
      stalled_evidence x.at x.state e (rw (raises-stalled (replay h) x.at x.state) at raised) in
    (
      e.last_finalized,
      base.positive seen.0,
      Froze-StalledAt e x (x ∷ h) seen.1 seen.2 seen.3 (Baseline-Froze e (x ∷ h) base seen.0),
    )
