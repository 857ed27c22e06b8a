-- ===== src/Rules/Kinds.antt =====
-- What the list of signals of one call may hold.
use collator.Prelude.{
  List, [], ◌∷◌, ◌++◌, Bool, true, false, ◌≡◌, refl, arith, ◌⊎◌, All, All-append, Time,
}
use collator.Model.{Overview}
use collator.Rules.{Signal, Evaluator, evaluate, emit, disk_check}
use collator.Rules.Signals.{raises, raised}

-- An action may follow from a critical signal about the service or the blocks only.
abbrev pub Guarded : Signal → Type 0
Guarded x =
    x.auto_candidate ≡ true
    → (x.severity ≡ "critical")
      × ((x.fingerprint ≡ "service-inactive") ⊎ (x.fingerprint ≡ "block-stalled"))

abbrev pub Distinct : List Signal → Type 0
Distinct [] = Unit
Distinct (x ∷ xs) = (raises x.fingerprint xs ≡ false) × Distinct xs

Distinct-emit :
    (b : Bool) (x : Signal) (rest : List Signal)
    → raises x.fingerprint rest ≡ false
    → Distinct rest
    → Distinct (emit b x ++ rest)
Distinct-emit true x rest h d = (h, d)
Distinct-emit false x rest h d = d

Distinct-disk :
    (s : Overview) (rest : List Signal)
    → raises "disk-critical" rest ≡ false
    → raises "disk-warning" rest ≡ false
    → Distinct rest
    → Distinct (disk_check s ++ rest)
unfolding disk_check
Distinct-disk s rest h k d = ground arith

All-emit : (b : Bool) (x : Signal) → Guarded x → All Guarded (emit b x)
All-emit true x g = (g, tt)
All-emit false x g = tt

All-disk : (s : Overview) → All Guarded (disk_check s)
unfolding disk_check
All-disk s = ground arith

Distinct-emit_last : (b : Bool) (x : Signal) → Distinct (emit b x)
Distinct-emit_last true x = (refl, tt)
Distinct-emit_last false x = tt

All-emit_guard : (b : Bool) (x : Signal) → x.auto_candidate ≡ false → All Guarded (emit b x)
All-emit_guard true x g = (λ h. cc, tt)
All-emit_guard false x g = tt

-- In the signals of any one call no two have the same fingerprint, and the candidates for an
-- automatic action are critical signals about an inactive service or stalled blocks.
pub evaluate-signals :
    (e : Evaluator) (now : Time) (s : Overview)
    → let signals = (evaluate e now s).1 in Distinct signals × All Guarded signals
unfolding evaluate
evaluate-signals e now s = (
  search (Distinct-emit, Distinct-disk, Distinct-emit_last, raised) depth 20,
  search (All-append, All-emit, All-disk, All-emit_guard, arith) depth 20,
)
