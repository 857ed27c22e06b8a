-- ===== src/Agent/Guard.antt =====
-- `restart`, `loadGuard` and `saveGuard` of cmd/agent/main.go. The requests are served one after the
-- other, under a mutex, and the guard's state is what its file holds; a missing or unreadable file
-- is the empty state. The clock's readings, the writes of the file, the command and the two waits
-- are parameters. The message of a finished run, which holds the output of the command, is left out.
pub mod Limits
pub mod Sequence
pub mod Latch
pub mod Once
use collator.Prelude.{
  ℕ, zero, suc, ◌+◌, Time, hour, is_zero, elapsed, List, [], ◌∷◌, ◌++◌, length, filterb, Bool, true,
  false, not, ◌&&◌, ◌||◌, ltb, leb, ◌==◌, if◌then◌else◌, Option, none, some, String, ◌=?◌, codes,
  trim_space,
}
use collator.Model.{Error, plain, Result, ok, err, ◌>>=◌, ◌>>◌, is_ok}

pub record GuardResult : Type 0 where
  pub status : String
  pub at : Time
  pub message : String

pub record GuardState : Type 0 where
  pub attempts : List Time
  pub processed : List (String × GuardResult)
  pub last_failure : Time

abbrev pub empty_guard : GuardState
empty_guard = record { attempts = []; processed = []; last_failure = 0 }

-- The readings of the clock, in the order of the code.
pub record Clock : Type 0 where
  pub stale_at : Time
  pub cut_at : Time
  pub since_at : Time
  pub attempt_at : Time
  pub running_at : Time
  pub failure_at : Time
  pub done_at : Time

-- A request to restart, and what the world answers while it is served.
pub record Request : Type 0 where
  pub body : Option (String × String)
  pub locked : Bool
  pub clock : Clock
  pub saves_stale : Bool
  pub saves_first : Bool
  pub saves_last : Bool
  pub command : Result (Unit {0})
  pub active : Result (Unit {0})
  pub progress : Result (Unit {0})

pub data Response : Type 0 where
  invalid_request : Response
  automation_locked : Response
  idempotent : GuardResult → Response
  daily_limit : Response
  cooldown : Response
  previous_recovery_failed : Response
  recovered : Response
  recovery_failed : Error → Response

-- What one request leaves: the file, the answer, and when the wrapper was started, if it was.
pub record Served : Type 0 where
  pub file : GuardState
  pub response : Response
  pub started : Option Time

-- The bytes of a text in UTF-8.
abbrev byte_length : List ℕ → ℕ
byte_length [] = 0
byte_length (c ∷ s) =
    (if ltb c 128 then 1 else (if ltb c 2048 then 2 else (if ltb c 65536 then 3 else 4)))
    + byte_length s

abbrev is_between : ℕ → ℕ → ℕ → Bool
is_between a b c = leb a c && leb c b

-- `[A-Za-z0-9_-]`
abbrev is_action_char : ℕ → Bool
is_action_char c =
    is_between 65 90 c || (is_between 97 122 c || (is_between 48 57 c || (c == 95 || c == 45)))

abbrev all_action_chars : List ℕ → Bool
all_action_chars [] = true
all_action_chars (c ∷ s) = is_action_char c && all_action_chars s

-- `actionPattern.MatchString`
unfoldable pub matches_action_pattern : List ℕ → Bool
matches_action_pattern s = is_between 5 100 (length s) && all_action_chars s

-- The guard on the decoded body.
unfoldable pub is_bad_request : String → String → Bool
unfolding matches_action_pattern codes trim_space
is_bad_request id reason =
    not (matches_action_pattern (codes id))
    || (ltb (byte_length (codes (trim_space reason))) 10 || ltb 500 (byte_length (codes reason)))

unfoldable pub find_result : String → List (String × GuardResult) → Option GuardResult
find_result id [] = none
find_result id ((k, r) ∷ m) = if k =? id then some r else find_result id m

unfoldable pub set_result :
    String → GuardResult → List (String × GuardResult) → List (String × GuardResult)
set_result id r [] = (id, r) ∷ []
set_result id r ((k, s) ∷ m) = if k =? id then (id, r) ∷ m else (k, s) ∷ set_result id r m

abbrev is_running : GuardResult → Bool
is_running r = r.status =? "running"

unfoldable pub has_stale : List (String × GuardResult) → Bool
has_stale [] = false
has_stale ((k, r) ∷ m) = is_running r || has_stale m

-- The loop of `loadGuard`, whose readings of the clock are one.
unfoldable pub fail_stale : Time → List (String × GuardResult) → List (String × GuardResult)
fail_stale now [] = []
fail_stale now ((k, r) ∷ m) =
    (
      k,
      (if is_running r
          then record {
            status = "failed";
            at = now;
            message = "agent restarted before recovery verification completed";
          }
          else r),
    )
    ∷ fail_stale now m

-- `loadGuard` of the file's state.
unfoldable pub load_guard : Time → GuardState → GuardState
unfolding has_stale fail_stale
load_guard now s =
    if has_stale s.processed
    then record s { processed = fail_stale now s.processed; last_failure = now }
    else s

-- What the file holds after `loadGuard`.
unfoldable pub file_after_load : Time → Bool → GuardState → GuardState
unfolding has_stale load_guard
file_after_load now saves s = if has_stale s.processed && saves then load_guard now s else s

abbrev pub day : ℕ
day = 86400000000000

-- `attempt.After(cut)`
abbrev pub is_recent : Time → Time → Bool
is_recent now t = ltb now (t + day)

unfoldable pub last_of : List Time → Option Time
last_of [] = none
last_of (t ∷ []) = some t
last_of (t ∷ u ∷ ts) = last_of (u ∷ ts)

-- `time.Since(state.Attempts[len(state.Attempts)-1]) < time.Hour`
unfoldable pub is_cooling : Time → List Time → Bool
unfolding last_of elapsed
is_cooling now ts = elim (last_of ts) [ none ↦ false | some t ↦ not (elapsed now t hour) ]

-- The state that is saved before the wrapper starts.
unfoldable pub begun : Clock → String → GuardState → GuardState
unfolding set_result
begun c id s = record s {
  attempts = s.attempts ++ c.attempt_at ∷ [];
  processed =
      set_result id
        (record { status = "running"; at = c.running_at; message = "restart requested" })
        s.processed;
}

-- The command, and then the two waits.
abbrev pub recovery : Request → Result (Unit {0})
recovery r = r.command >> (r.active >> r.progress)

-- The state that is saved last.
unfoldable pub finished : Clock → String → Result (Unit {0}) → GuardState → GuardState
unfolding set_result
finished c id (ok _) s = record s {
  processed =
      set_result id (record { status = "succeeded"; at = c.done_at; message = "" }) s.processed;
}
finished c id (err e) s = record s {
  last_failure = c.failure_at;
  processed =
      set_result id (record { status = "failed"; at = c.done_at; message = "" }) s.processed;
}

abbrev answer_of : Result (Unit {0}) → Response
answer_of (ok _) = recovered
answer_of (err e) = recovery_failed e

-- The restart itself, from the state `s` in memory and the state `file` on disk.
unfoldable pub run : Request → String → GuardState → GuardState → Served
unfolding begun finished
run r id file s =
    let first = begun r.clock id s in
    let second = finished r.clock id (recovery r) first in
    record {
      file = if r.saves_last then second else (if r.saves_first then first else file);
      response = answer_of (recovery r);
      started = some r.clock.attempt_at;
    }

abbrev refused : GuardState → Response → Served
refused file response = record { file = file; response = response; started = none }

-- The attempts of the last day.
abbrev pub pruned : Time → GuardState → GuardState
pruned now s = record s { attempts = filterb (is_recent now) s.attempts }

-- The limits, on the pruned state.
unfoldable pub check_limits : Request → String → GuardState → GuardState → Served
unfolding is_cooling run
check_limits r id file s =
    if leb 2 (length s.attempts)
    then refused file daily_limit
    else (if is_cooling r.clock.since_at s.attempts
        then refused file cooldown
        else (if not (is_zero s.last_failure)
            then refused file previous_recovery_failed
            else run r id file s))

-- What is known of the action already.
unfoldable pub check_known :
    Request → String → GuardState → GuardState → Option GuardResult → Served
unfolding check_limits
check_known r id file s (some result) = refused file (idempotent result)
check_known r id file s none = check_limits r id file (pruned r.clock.cut_at s)

unfoldable pub check_body : Request → GuardState → Option (String × String) → Served
unfolding is_bad_request load_guard file_after_load find_result check_known
check_body r file none = refused file invalid_request
check_body r file (some (id, reason)) =
    if is_bad_request id reason
    then refused file invalid_request
    else (if r.locked
        then refused file automation_locked
        else (let s = load_guard r.clock.stale_at file in
            check_known r id (file_after_load r.clock.stale_at r.saves_stale file) s
              (find_result id s.processed)))

-- `restart`
unfoldable pub restart : Request → GuardState → Served
unfolding check_body
restart r file = check_body r file r.body
