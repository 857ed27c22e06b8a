-- ===== src/Rules.antt =====
-- internal/rules/rules.go: the evaluator that turns the samples of the node into signals. Each
-- `..._check` is one block of `Evaluate`; the text of a signal's title is left out.
pub mod Timers
pub mod Signals
pub mod Stall
pub mod Kinds
pub mod Examples
use collator.Prelude.{
  ℕ, ◌+◌, ◌*◌, ℤ, pos, Time, minute, is_zero, elapsed, List, [], ◌∷◌, ◌++◌, Bool, true, false, not,
  ◌&&◌, ◌||◌, String, ◌=?◌, if◌then◌else◌, leb, leb_ℤ, ltb_ℤ, eqb_ℤ, sub64, since, ◌/◌, pos_part,
}
use collator.Model.{Value, num, text, percent, Evidence, Overview}

pub record Signal : Type 0 where
  pub fingerprint : String
  pub severity : String
  pub auto_candidate : Bool
  pub evidence : Evidence

pub record Evaluator : Type 0 where
  pub last_finalized : ℤ
  pub last_progress : Time
  pub stall_external_a : ℤ
  pub stall_external_b : ℤ
  pub inactive_since : Time
  pub low_peer_since : Time
  pub zero_peer_since : Time
  pub high_memory_since : Time
  pub warn_lag_since : Time
  pub critical_lag_since : Time

-- The zero value, with which the controller starts.
abbrev pub fresh : Evaluator
fresh = record {
  last_finalized = pos 0;
  last_progress = 0;
  stall_external_a = pos 0;
  stall_external_b = pos 0;
  inactive_since = 0;
  low_peer_since = 0;
  zero_peer_since = 0;
  high_memory_since = 0;
  warn_lag_since = 0;
  critical_lag_since = 0;
}

abbrev emit : Bool → Signal → List Signal
emit due signal = if due then signal ∷ [] else []

-- `if cond { if since.IsZero() { since = now } ... } else { since = time.Time{} }`
unfoldable pub held_since : Bool → Time → Time → Time
held_since holds now start = if holds then (if is_zero start then now else start) else 0

abbrev pub is_inactive : Overview → Bool
is_inactive s = not (s.node.service_state =? "active")

abbrev pub is_lag_critical : Overview → Bool
is_lag_critical s = ltb_ℤ (pos 120) s.chain.lag

abbrev pub is_lag_warning : Overview → Bool
is_lag_warning s = ltb_ℤ (pos 30) s.chain.lag

abbrev pub has_no_peers : Overview → Bool
has_no_peers s = eqb_ℤ s.chain.peers (pos 0) && s.node.service_state =? "active"

abbrev pub has_few_peers : Overview → Bool
has_few_peers s = ltb_ℤ (pos 0) s.chain.peers && ltb_ℤ s.chain.peers (pos 3)

abbrev pub is_memory_high : Overview → Bool
is_memory_high s = leb 90000 s.host.memory

unfoldable pub service_check : Time → Overview → Evaluator → Evaluator × List Signal
service_check now s e =
    let start = held_since (is_inactive s) now e.inactive_since in
    (
      record e { inactive_since = start },
      emit (is_inactive s && elapsed now start minute) (record {
        fingerprint = "service-inactive";
        severity = "critical";
        auto_candidate = true;
        evidence =
            ("state", text s.node.service_state)
            ∷ ("duration_seconds", num (pos (pos_part (since now start) / 1000000000)))
            ∷ [];
      }),
    )

-- The finalized height has changed: the baseline of the stall starts anew.
abbrev rebase_stall : Time → Overview → Evaluator → Evaluator
rebase_stall now s e = record e {
  last_finalized = s.chain.local_finalized;
  last_progress = now;
  stall_external_a = s.chain.external_a;
  stall_external_b = s.chain.external_b;
}

unfoldable pub progress_step : Time → Overview → Evaluator → Evaluator
progress_step now s e =
    let height = s.chain.local_finalized in
    let moved = ltb_ℤ (pos 0) height && not (eqb_ℤ height e.last_finalized) in
    let e' = if moved then rebase_stall now s e else e in
    if is_zero e'.last_progress && ltb_ℤ (pos 0) height then rebase_stall now s e' else e'

unfoldable pub is_stalled : Time → Overview → Evaluator → Bool
is_stalled now s e =
    not (is_zero e.last_progress)
    && (elapsed now e.last_progress (5 * minute)
        && (leb_ℤ (pos 20) (sub64 s.chain.external_a e.stall_external_a)
            && leb_ℤ (pos 20) (sub64 s.chain.external_b e.stall_external_b)))

unfoldable pub progress_check : Time → Overview → Evaluator → Evaluator × List Signal
progress_check now s e =
    let e' = progress_step now s e in
    (
      e',
      emit (is_stalled now s e') (record {
        fingerprint = "block-stalled";
        severity = "critical";
        auto_candidate = true;
        evidence =
            ("local_finalized", num s.chain.local_finalized)
            ∷ ("external_a_delta", num (sub64 s.chain.external_a e'.stall_external_a))
            ∷ ("external_b_delta", num (sub64 s.chain.external_b e'.stall_external_b))
            ∷ [];
      }),
    )

unfoldable pub lag_critical_check : Time → Overview → Evaluator → Evaluator × List Signal
lag_critical_check now s e =
    let start = held_since (is_lag_critical s) now e.critical_lag_since in
    (
      record e { critical_lag_since = start },
      emit (is_lag_critical s && elapsed now start (10 * minute)) (record {
        fingerprint = "sync-lag-critical";
        severity = "critical";
        auto_candidate = false;
        evidence = ("lag", num s.chain.lag) ∷ [];
      }),
    )

unfoldable pub lag_warning_check : Time → Overview → Evaluator → Evaluator × List Signal
lag_warning_check now s e =
    let start = held_since (is_lag_warning s) now e.warn_lag_since in
    (
      record e { warn_lag_since = start },
      emit (is_lag_warning s && elapsed now start (5 * minute)) (record {
        fingerprint = "sync-lag-warning";
        severity = "warning";
        auto_candidate = false;
        evidence = ("lag", num s.chain.lag) ∷ [];
      }),
    )

unfoldable pub zero_peers_check : Time → Overview → Evaluator → Evaluator × List Signal
zero_peers_check now s e =
    let start = held_since (has_no_peers s) now e.zero_peer_since in
    (
      record e { zero_peer_since = start },
      emit (has_no_peers s && elapsed now start (3 * minute)) (record {
        fingerprint = "peers-zero";
        severity = "critical";
        auto_candidate = false;
        evidence = ("peers", num (pos 0)) ∷ [];
      }),
    )

unfoldable pub low_peers_check : Time → Overview → Evaluator → Evaluator × List Signal
low_peers_check now s e =
    let start = held_since (has_few_peers s) now e.low_peer_since in
    (
      record e { low_peer_since = start },
      emit (has_few_peers s && elapsed now start (5 * minute)) (record {
        fingerprint = "peers-low";
        severity = "warning";
        auto_candidate = false;
        evidence = ("peers", num s.chain.peers) ∷ [];
      }),
    )

abbrev disk_signal : String → String → Overview → Signal
disk_signal fp level s = record {
  fingerprint = fp;
  severity = level;
  auto_candidate = false;
  evidence = ("used_percent", percent s.host.disk) ∷ [];
}

unfoldable pub disk_check : Overview → List Signal
disk_check s =
    if leb 92000 s.host.disk
    then disk_signal "disk-critical" "critical" s ∷ []
    else (if leb 85000 s.host.disk then disk_signal "disk-warning" "warning" s ∷ [] else [])

unfoldable pub memory_check : Time → Overview → Evaluator → Evaluator × List Signal
memory_check now s e =
    let start = held_since (is_memory_high s) now e.high_memory_since in
    (
      record e { high_memory_since = start },
      emit (is_memory_high s && elapsed now start (10 * minute)) (record {
        fingerprint = "memory-high";
        severity = "warning";
        auto_candidate = false;
        evidence = ("used_percent", percent s.host.memory) ∷ [];
      }),
    )

-- `Evaluate`: the blocks in the order of the source, each on the evaluator that the one before left.
unfoldable pub evaluate : Evaluator → Time → Overview → Evaluator × List Signal
unfolding service_check progress_check lag_critical_check lag_warning_check zero_peers_check
    low_peers_check memory_check
evaluate e now s =
    let (e1, s1) = service_check now s e in
    let (e2, s2) = progress_check now s e1 in
    let (e3, s3) = lag_critical_check now s e2 in
    let (e4, s4) = lag_warning_check now s e3 in
    let (e5, s5) = zero_peers_check now s e4 in
    let (e6, s6) = low_peers_check now s e5 in
    let (e7, s7) = memory_check now s e6 in
    (e7, s1 ++ (s2 ++ (s3 ++ (s4 ++ (s5 ++ (s6 ++ (disk_check s ++ s7)))))))
