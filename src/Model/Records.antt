-- ===== src/Model/Records.antt =====
-- The structs of internal/model/model.go that the modelled code reads or writes.
use collator.Prelude.{ℕ, ℤ, Time, Bool, String, List, Option}
use collator.Model.Errors.{Error}

-- A value of a `map[string]any`.
pub data Value : Type 0 where
  num : ℤ → Value
  text : String → Value
  flag : Bool → Value
  percent : ℕ → Value

abbrev pub Evidence : Type 0
Evidence = List (String × Value)

pub record NodeState : Type 0 where
  pub name : String
  pub service_state : String
  pub version : String
  pub uptime : ℤ
  pub restart_count : ℤ

pub record ChainState : Type 0 where
  pub local_finalized : ℤ
  pub local_best : ℤ
  pub external_height : ℤ
  pub external_a : ℤ
  pub external_b : ℤ
  pub lag : ℤ
  pub peers : ℤ
  pub status : String

-- Thousandths of a percent.
pub record HostState : Type 0 where
  pub cpu : ℕ
  pub memory : ℕ
  pub disk : ℕ

pub record AutomationState : Type 0 where
  pub mode : String
  pub enabled : Bool
  pub host_locked : Bool
  pub eligible_at : Time

pub record Incident : Type 0 where
  pub id : String
  pub fingerprint : String
  pub severity : String
  pub status : String
  pub opened_at : Time
  pub updated_at : Time
  pub diagnosis : String
  pub evidence : Evidence

pub record RewardRecovery : Type 0 where
  pub required : Bool
  pub reason : String
  pub expected_cursor : ℤ
  pub candidate_resume_from_block : ℤ

pub record RewardHistoryGap : Type 0 where
  pub from_block : ℤ
  pub through_block : ℤ
  pub resume_from_block : ℤ
  pub acknowledged_at : Time
  pub acknowledged_by : String
  pub history_recovered : Bool

-- The text of `RewardOverview.Gap`, by the format that made it; `no_gap` is the empty text.
pub data Gap : Type 0 where
  no_gap : Gap
  unreadable : Error → Gap
  scan_failed : ℤ → ℤ → Error → Gap
  behind_cursor : ℤ → ℤ → Gap
  catching_up : ℤ → Gap
  acknowledged_pruned : ℤ → ℤ → ℤ → Gap

pub record RewardOverview : Type 0 where
  pub address : String
  pub status : String
  pub monitoring_started_at : Time
  pub active_session : Bool
  pub validator_count : ℕ
  pub finalized_block : ℤ
  pub last_scanned_block : ℤ
  pub last_authored_block : ℤ
  pub last_reward_at : Time
  pub seconds_since_reward : ℤ
  pub blocks_since_authored : ℤ
  pub kick_blocks_remaining : ℤ
  pub wallet_free : ℕ
  pub last_reward : ℕ
  pub spec_version : ℤ
  pub schema_ok : Bool
  pub quorum : ℕ
  pub inactive_confirmations : ℕ
  pub sources : List (String × String)
  pub gap : Gap
  pub recovery : Option RewardRecovery
  pub last_history_gap : Option RewardHistoryGap

pub record RewardObservation : Type 0 where
  pub block_number : ℤ
  pub block_hash : String
  pub authored_at : Time
  pub expected : ℕ
  pub credited : ℕ
  pub wallet_before : ℕ
  pub wallet_after : ℕ
  pub pot_before : ℕ
  pub verification : String
  pub source_count : ℕ
  pub evidence : List (String × String)

pub record RewardSnapshot : Type 0 where
  pub address : String
  pub finalized_block : ℤ
  pub finalized_hash : String
  pub last_authored_block : ℤ
  pub last_authored_at : Time
  pub wallet_free : ℕ
  pub wallet_reserved : ℕ
  pub active_session : Bool
  pub validator_count : ℕ
  pub spec_version : ℤ
  pub schema_ok : Bool
  pub error : String
  pub source : String
  pub observed_at : Time

pub record RewardScan : Type 0 where
  pub from : ℤ
  pub to : ℤ
  pub last_authored : ℤ
  pub observations : List RewardObservation
  pub source : String

pub record Overview : Type 0 where
  pub node : NodeState
  pub chain : ChainState
  pub host : HostState
  pub automation : AutomationState
  pub rewards : RewardOverview
  pub incidents : List Incident
  pub updated_at : Time
