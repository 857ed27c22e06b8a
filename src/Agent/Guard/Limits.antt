-- ===== src/Agent/Guard/Limits.antt =====
-- How often the node may be restarted.
use collator.Prelude.{
  ℕ, ◌+◌, ◌≤◌, Time, is_zero, List, [], ◌∷◌, ◌++◌, length, filterb, Bool, true, false, ◌&&◌, ◌||◌,
  ltb, leb, if◌then◌else◌, Option, none, some, String, ◌≡◌, refl, sym, ap, ◌∙◌, arith, All, ◌⊎◌,
  inl, inr, Bool-cases,
}
use collator.Agent.Guard.{
  GuardState, GuardResult, Clock, Request, Served, load_guard, file_after_load, day, is_recent,
  is_cooling, begun, finished, run, pruned, check_limits, check_known, check_body, restart,
  has_stale, is_bad_request,
}
use collator.Model.{Result, ok, err}

-- How a request bears on the attempts.
abbrev pub Kept : Request → GuardState → Served → Type 0
Kept r file o = (o.started ≡ none) × (o.file.attempts ≡ file.attempts)

abbrev pub recents : Request → GuardState → List Time
recents r file = filterb (is_recent r.clock.cut_at) file.attempts

abbrev pub Started : Request → GuardState → Served → Type 0
Started r file o =
    (o.started ≡ some r.clock.attempt_at)
    × (length (recents r file) ≤ 1)
    × (is_cooling r.clock.since_at (recents r file) ≡ false)
    × ((r.saves_first || r.saves_last) ≡ true
        → o.file.attempts ≡ recents r file ++ r.clock.attempt_at ∷ [])

load_attempts : (now : Time) (s : GuardState) → (load_guard now s).attempts ≡ s.attempts
unfolding load_guard
load_attempts now s = elim (Bool-cases (has_stale s.processed)) [
  | inl t ↦ rw t refl
  | inr f ↦ rw f refl
]

file_attempts :
    (now : Time) (saves : Bool) (s : GuardState)
    → (file_after_load now saves s).attempts ≡ s.attempts
unfolding file_after_load
file_attempts now saves s = elim (Bool-cases (has_stale s.processed && saves)) [
  | inl t ↦ rw t (load_attempts now s)
  | inr f ↦ rw f refl
]

finished_attempts :
    (c : Clock) (id : String) (r : Result (Unit {0})) (s : GuardState)
    → (finished c id r s).attempts ≡ s.attempts
unfolding finished
finished_attempts c id (ok _) s = refl
finished_attempts c id (err e) s = refl

run_attempts :
    (r : Request) (id : String) (file s : GuardState)
    → (r.saves_first || r.saves_last) ≡ true
    → (run r id file s).file.attempts ≡ s.attempts ++ r.clock.attempt_at ∷ []
unfolding run begun
run_attempts r id file s h = elim (Bool-cases r.saves_last) [
  | inl t ↦ rw t (finished_attempts r.clock id _ _)
  | inr f ↦ elim (Bool-cases r.saves_first) [
    | inl t ↦ rw (f, t) refl
    | inr g ↦ absurd (ground arith)
  ]
]

limits_lem :
    (r : Request) (id : String) (original file s : GuardState)
    → s.attempts ≡ original.attempts
    → file.attempts ≡ original.attempts
    → let o = check_limits r id file (pruned r.clock.cut_at s) in
      Kept r original o ⊎ Started r original o
unfolding check_limits
limits_lem r id original file s e k =
    let ts = filterb (is_recent r.clock.cut_at) s.attempts in
    let same : ts ≡ recents r original = ap (filterb (is_recent r.clock.cut_at)) e in
    elim (Bool-cases (leb 2 (length ts))) [
      | inl many ↦ rw many (inl (refl, k))
      | inr few ↦
          let at_most_one : length ts ≤ 1 = ground arith in
          elim (Bool-cases (is_cooling r.clock.since_at ts)) [
            | inl hot ↦ rw (few, hot) (inl (refl, k))
            | inr cool ↦ elim (Bool-cases (is_zero s.last_failure)) [
              | inr bad ↦ rw (few, cool, bad) (inl (refl, k))
              | inl fine ↦
                  rw (few, cool, fine)
                    (inr (
                      refl,
                      rw same at at_most_one,
                      ap (is_cooling r.clock.since_at) (sym same) ∙ cool,
                      λ h.
                          run_attempts r id file (pruned r.clock.cut_at s) h
                          ∙ ap (λ l. l ++ r.clock.attempt_at ∷ []) same,
                    ))
            ]
          ]
    ]

pub restart_lem :
    (r : Request) (file : GuardState)
    → Kept r file (restart r file) ⊎ Started r file (restart r file)
unfolding restart check_body check_known
restart_lem r file = body r.body
  where
    known :
        (id : String) (o : Option GuardResult)
        → let s = load_guard r.clock.stale_at file in
          let c = check_known r id (file_after_load r.clock.stale_at r.saves_stale file) s o in
          Kept r file c ⊎ Started r file c
    known id (some g) = inl (refl, file_attempts r.clock.stale_at r.saves_stale file)
    known id none =
        limits_lem r id file _ (load_guard r.clock.stale_at file)
          (load_attempts r.clock.stale_at file) (file_attempts r.clock.stale_at r.saves_stale file)

    body :
        (b : Option (String × String))
        → Kept r file (check_body r file b) ⊎ Started r file (check_body r file b)
    body none = inl (refl, refl)
    body (some (id, reason)) = elim (Bool-cases (is_bad_request id reason)) [
      | inl bad ↦ rw bad (inl (refl, refl))
      | inr good ↦ elim (Bool-cases r.locked) [
        | inl shut ↦ rw (good, shut) (inl (refl, refl))
        | inr open_one ↦ rw (good, open_one) (known id _)
      ]
    ]

-- How many of the times lie less than `k` before `now`.
abbrev pub within : ℕ → Time → List Time → ℕ
within k now [] = 0
within k now (t ∷ ts) = (if ltb now (t + k) then 1 else 0) + within k now ts

pub within-append :
    (k now : ℕ) (xs ys : List Time) → within k now (xs ++ ys) ≡ within k now xs + within k now ys
within-append k now [] ys = omega arith
within-append k now (x ∷ xs) ys = omega (arith, within-append k now xs ys)

pub within-length : (k now : ℕ) (xs : List Time) → within k now xs ≤ length xs
within-length k now [] = omega arith
within-length k now (x ∷ xs) = ground (arith, within-length k now xs)

-- What is cut off is not recent later.
pub within-filterb :
    (k cut now : ℕ) (xs : List Time)
    → k ≤ day
    → cut ≤ now
    → within k now (filterb (is_recent cut) xs) ≡ within k now xs
within-filterb k cut now [] h g = refl
within-filterb k cut now (x ∷ xs) h g = ground (arith, within-filterb k cut now xs h g)

-- The times rise, up to `now`.
abbrev pub Ascending : List Time → Time → Type 0
Ascending [] now = Unit
Ascending (t ∷ ts) now = (t ≤ now) × All (λ u. t ≤ u) ts × Ascending ts now
