-- ===== src/Rules/Signals.antt =====
-- Which signals one call of `Evaluate` raises, read off the evaluator that it leaves.
use collator.Prelude.{
  ◌*◌, minute, Time, elapsed, List, [], ◌∷◌, ◌++◌, Bool, true, false, ◌&&◌, ◌||◌, String, ◌=?◌, ◌≡◌,
  refl, arith,
}
use collator.Model.{Overview}
use collator.Rules.{
  Signal, Evaluator, is_inactive, is_lag_critical, is_lag_warning, has_no_peers, has_few_peers,
  is_memory_high, is_stalled, held_since, service_check, evaluate, disk_check, emit, progress_step,
}

-- Whether a list of signals holds one with the fingerprint.
abbrev pub raises : String → List Signal → Bool
raises fp [] = false
raises fp (x ∷ xs) = x.fingerprint =? fp || raises fp xs

pub or_false : (b : Bool) → (b || false) ≡ b
or_false true = refl
or_false false = refl

pub or_assoc : (a b c : Bool) → (a || (b || c)) ≡ ((a || b) || c)
or_assoc true b c = refl
or_assoc false b c = refl

pub raises-append :
    (fp : String) (xs ys : List Signal) → raises fp (xs ++ ys) ≡ (raises fp xs || raises fp ys)
raises-append fp [] ys = refl
raises-append fp (x ∷ xs) ys =
    rw (raises-append fp xs ys) (or_assoc (x.fingerprint =? fp) (raises fp xs) (raises fp ys))

pub raises-emit :
    (fp : String) (b : Bool) (x : Signal) → raises fp (emit b x) ≡ (b && x.fingerprint =? fp)
raises-emit fp true x = or_false (x.fingerprint =? fp)
raises-emit fp false x = refl

pub and_false : (b : Bool) → (b && false) ≡ false
and_false true = refl
and_false false = refl

pub and_true : (b : Bool) → (b && true) ≡ b
and_true true = refl
and_true false = refl

pub raises-disk_check :
    (s : Overview) (fp : String)
    → ("disk-critical" =? fp) ≡ false
    → ("disk-warning" =? fp) ≡ false
    → raises fp (disk_check s) ≡ false
unfolding disk_check
raises-disk_check s fp h k = ground arith

-- The stall's baseline is apart from the timers.
module _ (now : Time) (s : Overview) (e : Evaluator) where
  pub progress_step-low_peer_since : (progress_step now s e).low_peer_since ≡ e.low_peer_since
  unfolding progress_step
  progress_step-low_peer_since = ground arith

  pub progress_step-zero_peer_since : (progress_step now s e).zero_peer_since ≡ e.zero_peer_since
  unfolding progress_step
  progress_step-zero_peer_since = ground arith

  pub progress_step-high_memory_since :
      (progress_step now s e).high_memory_since ≡ e.high_memory_since
  unfolding progress_step
  progress_step-high_memory_since = ground arith

  pub progress_step-warn_lag_since : (progress_step now s e).warn_lag_since ≡ e.warn_lag_since
  unfolding progress_step
  progress_step-warn_lag_since = ground arith

  pub progress_step-critical_lag_since :
      (progress_step now s e).critical_lag_since ≡ e.critical_lag_since
  unfolding progress_step
  progress_step-critical_lag_since = ground arith

  pub progress_step-inactive_since : (progress_step now s e).inactive_since ≡ e.inactive_since
  unfolding progress_step
  progress_step-inactive_since = ground arith

pub ruleset frames = (
  progress_step-low_peer_since, progress_step-zero_peer_since, progress_step-high_memory_since,
  progress_step-warn_lag_since, progress_step-critical_lag_since, progress_step-inactive_since,
)

pub ruleset raised =
    (raises-append, raises-emit, and_false, and_true, or_false, raises-disk_check, frames)

module _ (e : Evaluator) (now : Time) (s : Overview) where
  pub raises-inactive :
      raises "service-inactive" (evaluate e now s).1
      ≡ (is_inactive s && elapsed now (held_since (is_inactive s) now e.inactive_since) minute)
  unfolding evaluate
  raises-inactive = simp raised

  pub raises-lag_critical : raises "sync-lag-critical" (evaluate e now s).1 ≡ (
      is_lag_critical s
      && elapsed now (held_since (is_lag_critical s) now e.critical_lag_since) (10 * minute))
  unfolding evaluate
  raises-lag_critical = simp raised

  pub raises-lag_warning : raises "sync-lag-warning" (evaluate e now s).1 ≡ (
      is_lag_warning s
      && elapsed now (held_since (is_lag_warning s) now e.warn_lag_since) (5 * minute))
  unfolding evaluate
  raises-lag_warning = simp raised

  pub raises-zero_peers : raises "peers-zero" (evaluate e now s).1 ≡ (
      has_no_peers s
      && elapsed now (held_since (has_no_peers s) now e.zero_peer_since) (3 * minute))
  unfolding evaluate
  raises-zero_peers = simp raised

  pub raises-low_peers : raises "peers-low" (evaluate e now s).1 ≡ (
      has_few_peers s
      && elapsed now (held_since (has_few_peers s) now e.low_peer_since) (5 * minute))
  unfolding evaluate
  raises-low_peers = simp raised

  pub raises-memory_high : raises "memory-high" (evaluate e now s).1 ≡ (
      is_memory_high s
      && elapsed now (held_since (is_memory_high s) now e.high_memory_since) (10 * minute))
  unfolding evaluate
  raises-memory_high = simp raised

  pub raises-stalled :
      raises "block-stalled" (evaluate e now s).1
      ≡ is_stalled now s (progress_step now s (service_check now s e).0)
  unfolding evaluate
  raises-stalled = simp raised
