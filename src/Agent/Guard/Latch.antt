-- ===== src/Agent/Guard/Latch.antt =====
-- The latch: a restart that did not end well, or of which the end is not known.
use collator.Prelude.{
  ◌<◌, Time, is_zero, List, [], ◌∷◌, length, Bool, true, false, not, ◌&&◌, ◌||◌, leb, Option, none,
  some, String, ◌=?◌, ◌≡◌, refl, sym, subst, arith, ◌⊎◌, inl, inr, Bool-cases,
}
use collator.Model.{Result, ok, err, is_ok}
use collator.Agent.Guard.{
  GuardState, GuardResult, Clock, Request, Served, load_guard, file_after_load, begun, finished,
  recovery, run, pruned, check_limits, check_known, check_body, restart, has_stale, is_bad_request,
  find_result, set_result, is_cooling,
}

-- A failure is noted, or a restart is noted as running.
abbrev pub is_latched : GuardState → Bool
is_latched s = not (is_zero s.last_failure) || has_stale s.processed

-- No restart, and latched still.
abbrev Held : Served → Type 0
Held o = (o.started ≡ none) × (is_latched o.file ≡ true)

load_fails :
    (now : Time) (s : GuardState)
    → 0 < now
    → is_latched s ≡ true
    → is_zero (load_guard now s).last_failure ≡ false
unfolding load_guard
load_fails now s p l = elim (Bool-cases (has_stale s.processed)) [
  | inl t ↦ rw t (ground arith)
  | inr f ↦ rw f (ground arith)
]

file_latched :
    (now : Time) (saves : Bool) (s : GuardState)
    → 0 < now
    → is_latched s ≡ true
    → is_latched (file_after_load now saves s) ≡ true
unfolding file_after_load
file_latched now saves s p l = elim (Bool-cases (has_stale s.processed && saves)) [
  | inl t ↦ rw t (let z = load_fails now s p l in ground arith)
  | inr f ↦ rw f l
]

limits-Held :
    (r : Request) (id : String) (file s : GuardState)
    → is_zero s.last_failure ≡ false
    → is_latched file ≡ true
    → Held (check_limits r id file s)
unfolding check_limits
limits-Held r id file s z l = elim (Bool-cases (leb 2 (length s.attempts))) [
  | inl many ↦ rw many (refl, l)
  | inr few ↦ elim (Bool-cases (is_cooling r.clock.since_at s.attempts)) [
    | inl hot ↦ rw (few, hot) (refl, l)
    | inr cool ↦ rw (few, cool, z) (refl, l)
  ]
]

restart-Held :
    (r : Request) (file : GuardState)
    → 0 < r.clock.stale_at
    → is_latched file ≡ true
    → Held (restart r file)
unfolding restart check_body check_known
restart-Held r file p l = body r.body
  where
    known :
        (id : String) (o : Option GuardResult)
        → Held (
            check_known r id
              (file_after_load r.clock.stale_at r.saves_stale file)
              (load_guard r.clock.stale_at file)
              o)
    known id (some g) = (refl, file_latched r.clock.stale_at r.saves_stale file p l)
    known id none =
        limits-Held r id _ (pruned r.clock.cut_at (load_guard r.clock.stale_at file))
          (load_fails r.clock.stale_at file p l)
          (file_latched r.clock.stale_at r.saves_stale file p l)

    body : (b : Option (String × String)) → Held (check_body r file b)
    body none = (refl, l)
    body (some (id, reason)) = elim (Bool-cases (is_bad_request id reason)) [
      | inl bad ↦ rw bad (refl, l)
      | inr good ↦ elim (Bool-cases r.locked) [
        | inl shut ↦ rw (good, shut) (refl, l)
        | inr open_one ↦ rw (good, open_one) (known id _)
      ]
    ]

set_stale :
    (id : String) (r : GuardResult) (m : List (String × GuardResult))
    → (r.status =? "running") ≡ true
    → has_stale (set_result id r m) ≡ true
unfolding set_result has_stale
set_stale id r [] h = ground arith
set_stale id r ((k, s) ∷ m) h = ground (arith, set_stale id r m h)

-- The one way to a start.
pub record Run (r : Request) (file : GuardState) (o : Served) : Type 0 where
  pub id : String
  pub reason : String
  pub asked : r.body ≡ some (id, reason)
  pub unknown : find_result id (load_guard r.clock.stale_at file).processed ≡ none
  pub ran :
      o
      ≡ run r id
          (file_after_load r.clock.stale_at r.saves_stale file)
          (pruned r.clock.cut_at (load_guard r.clock.stale_at file))

limits-Run :
    (r : Request) (id : String) (file s : GuardState)
    → let o = check_limits r id file s in (o.started ≡ none) ⊎ (o ≡ run r id file s)
unfolding check_limits
limits-Run r id file s = elim (Bool-cases (leb 2 (length s.attempts))) [
  | inl many ↦ rw many (inl refl)
  | inr few ↦ elim (Bool-cases (is_cooling r.clock.since_at s.attempts)) [
    | inl hot ↦ rw (few, hot) (inl refl)
    | inr cool ↦ elim (Bool-cases (is_zero s.last_failure)) [
      | inr bad ↦ rw (few, cool, bad) (inl refl)
      | inl fine ↦ rw (few, cool, fine) (inr refl)
    ]
  ]
]

pub restart-Run :
    (r : Request) (file : GuardState)
    → ((restart r file).started ≡ none) ⊎ Run r file (restart r file)
unfolding restart check_body check_known
restart-Run r file = body r.body refl
  where
    known :
        (id reason : String) (o : Option GuardResult)
        → r.body ≡ some (id, reason)
        → find_result id (load_guard r.clock.stale_at file).processed ≡ o
        → let c =
            check_known r id
              (file_after_load r.clock.stale_at r.saves_stale file)
              (load_guard r.clock.stale_at file)
              o in
          (c.started ≡ none) ⊎ Run r file c
    known id reason (some g) b f = inl refl
    known id reason none b f =
        elim (limits-Run r id (file_after_load r.clock.stale_at r.saves_stale file)
          (pruned r.clock.cut_at (load_guard r.clock.stale_at file))) [
            | inl n ↦ inl n
            | inr e ↦ inr (record { id = id; reason = reason; asked = b; unknown = f; ran = e })
          ]

    body :
        (b : Option (String × String))
        → r.body ≡ b
        → ((check_body r file b).started ≡ none) ⊎ Run r file (check_body r file b)
    body none e = inl refl
    body (some (id, reason)) e = elim (Bool-cases (is_bad_request id reason)) [
      | inl bad ↦ rw bad (inl refl)
      | inr good ↦ elim (Bool-cases r.locked) [
        | inl shut ↦ rw (good, shut) (inl refl)
        | inr open_one ↦ simp (good, open_one) (known id reason _ e refl)
      ]
    ]

begun_latched : (c : Clock) (id : String) (s : GuardState) → is_latched (begun c id s) ≡ true
unfolding begun
begun_latched c id s =
    let k =
      set_stale id (record { status = "running"; at = c.running_at; message = "restart requested" })
        s.processed refl in
    ground arith

finished_latched :
    (c : Clock) (id : String) (x : Result (Unit {0})) (s : GuardState)
    → 0 < c.failure_at
    → (is_ok x ≡ true) ⊎ (is_latched (finished c id x s) ≡ true)
unfolding finished
finished_latched c id (ok _) s p = inl refl
finished_latched c id (err e) s p = inr (ground arith)

-- How a start may leave the file.
abbrev Settled : Request → Served → Type 0
Settled r o =
    ((r.saves_last ≡ true) × (is_ok (recovery r) ≡ true))
    ⊎ (is_latched o.file ≡ true)
    ⊎ ((r.saves_first || r.saves_last) ≡ false)

run-Settled :
    (r : Request) (id : String) (file s : GuardState)
    → 0 < r.clock.failure_at
    → Settled r (run r id file s)
unfolding run
run-Settled r id file s p = elim (Bool-cases r.saves_last) [
  | inl last ↦ elim (finished_latched r.clock id (recovery r) (begun r.clock id s) p) [
    | inl fine ↦ inl (last, fine)
    | inr bad ↦ rw last (inr (inl bad))
  ]
  | inr not_last ↦ elim (Bool-cases r.saves_first) [
    | inl first ↦ rw (not_last, first) (inr (inl (begun_latched r.clock id s)))
    | inr not_first ↦ inr (inr (ground arith))
  ]
]

-- With a clock that stands above zero, whatever the world answers: a file that notes a failure, or a
-- restart that is still running, refuses every request without starting the wrapper, and goes on to
-- do so. A request that does start the wrapper leaves such a file, unless the command and both waits
-- succeeded and this was saved, or neither of the two writes succeeded.
pub restart-latches :
    (r : Request) (file : GuardState)
    → 0 < r.clock.stale_at
    → 0 < r.clock.failure_at
    → ((is_latched file ≡ false)
        ⊎ (((restart r file).started ≡ none) × (is_latched (restart r file).file ≡ true)))
      × (((restart r file).started ≡ none)
          ⊎ ((r.saves_last ≡ true) × (is_ok (recovery r) ≡ true))
          ⊎ (is_latched (restart r file).file ≡ true)
          ⊎ ((r.saves_first || r.saves_last) ≡ false))
restart-latches r file p q = (
  elim (Bool-cases (is_latched file)) [
    | inl latched ↦ inr (restart-Held r file p latched)
    | inr free ↦ inl free
  ],
  elim (restart-Run r file) [
    | inl still ↦ inl still
    | inr go ↦ let e = go.ran in inr (subst (Settled r) (sym e) (run-Settled r go.id _ _ q))
  ],
)
