-- ===== src/Agent/Examples.antt =====
-- Tests of the guard of the restart.
use collator.Prelude.{
  ◌+◌, ◌*◌, ◌≤◌, Time, minute, hour, [], ◌∷◌, true, false, ◌||◌, none, some, String, ◌≡◌, refl,
  arith, ◌⊎◌,
}
use collator.Model.{Result, ok, err, plain, is_ok}
use collator.Agent.Guard.{GuardState, Clock, Request, empty_guard, restart, recovery}
use collator.Agent.Guard.Sequence.{initial, served, InOrder, Limited, logged, restarts-Limited}
use collator.Agent.Guard.Latch.{is_latched, restart-latches}

abbrev clock : Time → Clock
clock t = record {
  stale_at = t;
  cut_at = t;
  since_at = t;
  attempt_at = t;
  running_at = t;
  failure_at = t;
  done_at = t;
}

abbrev request : String → Time → Result (Unit {0}) → Request
request id t result = record {
  body = some (id, "the service does not answer");
  locked = false;
  clock = clock t;
  saves_stale = true;
  saves_first = true;
  saves_last = true;
  command = ok tt;
  active = result;
  progress = ok tt;
}

abbrev first : Request
first = request "action-1" (30 * hour) (ok tt)

-- Half an hour later, which is too soon.
abbrev second : Request
second = request "action-2" (30 * hour + 30 * minute) (ok tt)

abbrev third : Request
third = request "action-3" (32 * hour) (ok tt)

abbrev failing : Request
failing = request "action-4" (30 * hour) (err (plain "service did not become active"))

abbrev after_first : GuardState
after_first = (restart first empty_guard).file

abbrev after_second : GuardState
after_second = (restart second after_first).file

in_order : (now t : Time) → now ≤ t → InOrder now (clock t)
in_order now t h = record { cut = h; since = omega arith; attempt = omega arith }

restarts-Limited_example : Limited (
    logged
      (restart third after_second).started
      (logged (restart second after_first).started (logged (restart first empty_guard).started [])))
restarts-Limited_example = restarts-Limited (
    served
      (served (served initial first (in_order 0 (30 * hour) (omega arith)) refl) second
        (in_order (30 * hour) (30 * hour + 30 * minute) (omega arith)) refl)
      third (in_order (30 * hour + 30 * minute) (32 * hour) (omega arith)) refl)

restart-latches_example :
    ((is_latched empty_guard ≡ false)
      ⊎ (((restart failing empty_guard).started ≡ none)
          × (is_latched (restart failing empty_guard).file ≡ true)))
    × (((restart failing empty_guard).started ≡ none)
        ⊎ ((failing.saves_last ≡ true) × (is_ok (recovery failing) ≡ true))
        ⊎ (is_latched (restart failing empty_guard).file ≡ true)
        ⊎ ((failing.saves_first || failing.saves_last) ≡ false))
restart-latches_example = restart-latches failing empty_guard (omega arith) (omega arith)

-- The three requests: the second one comes too soon.
starts :
    logged
      (restart third after_second).started
      (logged (restart second after_first).started (logged (restart first empty_guard).started []))
    ≡ 32 * hour ∷ 30 * hour ∷ []
unfolding restart
starts = refl
