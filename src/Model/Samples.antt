-- ===== src/Model/Samples.antt =====
-- Concrete records for the tests.
use collator.Prelude.{ℕ, pos, minute, [], ◌∷◌, true, false, none, String}
use collator.Model.Records.{RewardOverview, RewardObservation, RewardScan, Overview, no_gap}

abbrev pub sample_rewards : RewardOverview
sample_rewards = record {
  address = "wallet";
  status = "healthy";
  monitoring_started_at = minute;
  active_session = true;
  validator_count = 3;
  finalized_block = pos 102;
  last_scanned_block = pos 100;
  last_authored_block = pos 90;
  last_reward_at = minute;
  seconds_since_reward = pos 12;
  blocks_since_authored = pos 12;
  kick_blocks_remaining = pos 2000;
  wallet_free = 15;
  last_reward = 10;
  spec_version = pos 2500;
  schema_ok = true;
  quorum = 2;
  inactive_confirmations = 0;
  sources = [];
  gap = no_gap;
  recovery = none;
  last_history_gap = none;
}

-- A report of a block with less credit than the pot promises.
abbrev pub short_credit : ℕ → String → RewardObservation
short_credit block hash = record {
  block_number = pos block;
  block_hash = hash;
  authored_at = minute;
  expected = 10;
  credited = 4;
  wallet_before = 5;
  wallet_after = 9;
  pot_before = 1000020;
  verification = "insufficient";
  source_count = 1;
  evidence = ("source", "local") ∷ [];
}

abbrev pub local_scan : RewardScan
local_scan = record {
  from = pos 101;
  to = pos 102;
  last_authored = pos 101;
  observations = short_credit 101 "a1" ∷ [];
  source = "local";
}

abbrev pub sample_overview : Overview
sample_overview = record {
  node = record {
    name = "node";
    service_state = "active";
    version = "5";
    uptime = pos 1;
    restart_count = pos 0;
  };
  chain = record {
    local_finalized = pos 100;
    local_best = pos 102;
    external_height = pos 102;
    external_a = pos 102;
    external_b = pos 102;
    lag = pos 2;
    peers = pos 20;
    status = "healthy";
  };
  host = record { cpu = 1000; memory = 40000; disk = 50000 };
  automation = record { mode = "manual"; enabled = false; host_locked = false; eligible_at = 0 };
  rewards = sample_rewards;
  incidents = [];
  updated_at = minute;
}
