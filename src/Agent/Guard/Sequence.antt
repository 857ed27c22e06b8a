-- ===== src/Agent/Guard/Sequence.antt =====
-- The limits over any sequence of requests.
use collator.Prelude.{
  ℕ, ◌≤◌, Time, hour, elapsed_lem, List, [], ◌∷◌, ◌++◌, length, filterb, true, false, ◌||◌, Option,
  none, some, ◌≡◌, refl, arith, All, inl, inr,
}
use collator.Agent.Guard.{
  GuardState, Clock, Request, day, is_recent, last_of, is_cooling, restart, empty_guard,
}
use collator.Agent.Guard.Limits.{
  recents, restart_lem, within, within-append, within-length, within-filterb, Ascending,
}

All-snoc :
    (t u : Time) (ts : List Time) → All (λ v. t ≤ v) ts → t ≤ u → All (λ v. t ≤ v) (ts ++ u ∷ [])
All-snoc t u [] a h = (h, tt)
All-snoc t u (v ∷ vs) (p, a) h = (p, All-snoc t u vs a h)

Ascending-snoc :
    (ts : List Time) (now t : Time) → Ascending ts now → now ≤ t → Ascending (ts ++ t ∷ []) t
Ascending-snoc [] now t a h = (omega arith, tt, tt)
Ascending-snoc (u ∷ us) now t (p, q, a) h =
    (omega arith, All-snoc u t us q (omega arith), Ascending-snoc us now t a h)

All-kept :
    (t cut : Time) (ts : List Time)
    → All (λ v. t ≤ v) ts
    → All (λ v. t ≤ v) (filterb (is_recent cut) ts)
All-kept t cut [] a = tt
All-kept t cut (v ∷ vs) (p, a) = ground (arith, All-kept t cut vs a)

Ascending-filterb :
    (ts : List Time) (now cut : Time)
    → Ascending ts now
    → Ascending (filterb (is_recent cut) ts) now
Ascending-filterb [] now cut a = tt
Ascending-filterb (t ∷ ts) now cut (p, q, a) =
    ground (arith, All-kept t cut ts q, Ascending-filterb ts now cut a)

Ascending-mono :
    (ts : List Time) (now later : Time) → now ≤ later → Ascending ts now → Ascending ts later
Ascending-mono [] now later h a = tt
Ascending-mono (t ∷ ts) now later h (p, q, a) = (omega arith, q, Ascending-mono ts now later h a)

-- After the cooling time no attempt is less than an hour old.
cool_lem :
    (ts : List Time) (now since later : Time)
    → Ascending ts now
    → is_cooling since ts ≡ false
    → since ≤ later
    → within hour later ts ≡ 0
unfolding is_cooling last_of
cool_lem [] now since later a c h = refl
cool_lem (t ∷ []) now since later a c h = ground (arith, elapsed_lem since t hour (omega arith))
cool_lem (t ∷ u ∷ ts) now since later (p, (q, _), a) c h =
    ground (arith, cool_lem (u ∷ ts) now since later a c h)

-- The clock does not go back while a request is served.
pub record InOrder (now : Time) (c : Clock) : Type 0 where
  pub cut : now ≤ c.cut_at
  pub since : c.cut_at ≤ c.since_at
  pub attempt : c.since_at ≤ c.attempt_at

abbrev pub logged : Option Time → List Time → List Time
logged none log = log
logged (some t) log = t ∷ log

-- The states that requests reach from no state at all, with the starts of the wrapper, the latest
-- one first, and the time of the last request. Of the two writes of a restart at least one succeeds.
pub data Reached : GuardState → List Time → Time → Type 0 where
  initial : Reached empty_guard [] 0
  served :
      {file : GuardState} {log : List Time} {now : Time}
      → Reached file log now
      → (r : Request) → InOrder now r.clock
      → (r.saves_first || r.saves_last) ≡ true
      → Reached (restart r file).file (logged (restart r file).started log) r.clock.attempt_at

-- The file counts the recent starts right.
record Tracks (log attempts : List Time) (now : Time) : Type 0 where
  daily : (t : Time) → now ≤ t → within day t log ≡ within day t attempts
  hourly : (t : Time) → now ≤ t → within hour t log ≡ within hour t attempts
  rising : Ascending attempts now

-- At each start, at most one other lies less than a day back, and none less than an hour.
abbrev pub Limited : List Time → Type 0
Limited [] = Unit
Limited (t ∷ ts) = (within day t ts ≤ 1) × (within hour t ts ≡ 0) × Limited ts

step_lem :
    (file : GuardState) (log : List Time) (now : Time) (r : Request)
    → Tracks log file.attempts now
    → Limited log
    → InOrder now r.clock
    → (r.saves_first || r.saves_last) ≡ true
    → let o = restart r file in
      Tracks (logged o.started log) o.file.attempts r.clock.attempt_at
      × Limited (logged o.started log)
step_lem file log now r k l c h = elim (restart_lem r file) [
  | inl (none_yet, same) ↦
      rw (none_yet, same)
        (
          record {
            daily = λ t g. k.daily t (omega (arith, c.cut, c.since, c.attempt));
            hourly = λ t g. k.hourly t (omega (arith, c.cut, c.since, c.attempt));
            rising =
                Ascending-mono file.attempts now r.clock.attempt_at
                  (omega (arith, c.cut, c.since, c.attempt)) k.rising;
          },
          l,
        )
  | inr (at, few, cool, saved) ↦ rw (at, saved h) (started few cool)
]
  where
    started :
        length (recents r file) ≤ 1
        → is_cooling r.clock.since_at (recents r file) ≡ false
        → Tracks
            (r.clock.attempt_at ∷ log)
            (recents r file ++ r.clock.attempt_at ∷ [])
            r.clock.attempt_at
          × Limited (r.clock.attempt_at ∷ log)
    started few cool =
        let t0 = r.clock.attempt_at in
        let late : now ≤ t0 = omega (arith, c.cut, c.since, c.attempt) in
        let ts = recents r file in
        let kept : (k0 t : ℕ) → k0 ≤ day → t0 ≤ t → within k0 t ts ≡ within k0 t file.attempts =
          λ k0 t small g.
            within-filterb k0 r.clock.cut_at t file.attempts small
              (omega (arith, c.since, c.attempt)) in
        (
          record {
            daily = λ t g. omega (
              arith,
              within-append day t ts (t0 ∷ []),
              kept day t (omega arith) g,
              k.daily t (omega arith),
            );
            hourly = λ t g. omega (
              arith,
              within-append hour t ts (t0 ∷ []),
              kept hour t (omega arith) g,
              k.hourly t (omega arith),
            );
            rising =
                Ascending-snoc ts now t0
                  (Ascending-filterb file.attempts now r.clock.cut_at k.rising) late;
          },
          (
            omega (
              arith,
              k.daily t0 late,
              kept day t0 (omega arith) (omega arith),
              within-length day t0 ts,
            ),
            omega (
              arith,
              k.hourly t0 late,
              kept hour t0 (omega arith) (omega arith),
              cool_lem ts now r.clock.since_at t0
                  (Ascending-filterb file.attempts now r.clock.cut_at k.rising) cool c.attempt,
            ),
            l,
          ),
        )

Reached-Tracks :
    {file : GuardState} {log : List Time} {now : Time}
    → Reached file log now
    → Tracks log file.attempts now × Limited log
Reached-Tracks initial = (record { daily = λ t g. refl; hourly = λ t g. refl; rising = tt }, tt)
Reached-Tracks (served {file} {log} {now} s r c h) =
    let (k, l) = Reached-Tracks s in step_lem file log now r k l c h

-- From an empty file, over every sequence of requests, where the clock does not go back and at least
-- one of the two writes of each restart succeeds: whenever the wrapper is started, it was started at
-- most once in the day before, and not at all in the hour before.
pub restarts-Limited :
    {file : GuardState} {log : List Time} {now : Time} → Reached file log now → Limited log
restarts-Limited s = (Reached-Tracks s).1
