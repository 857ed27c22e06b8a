-- ===== src/Store/Examples.antt =====
-- Tests of the store.
use collator.Prelude.{pos, minute, List, [], ◌∷◌, some, ◌≡◌, refl, arith}
use collator.Model.{ok, RewardOverview, RewardObservation}
use collator.Model.Samples.{sample_rewards, short_credit}
use collator.Store.{Db, Faults, apply_reward_scan}
use collator.Store.Scan.{
  Applied, Atomic, WellFormed, apply_reward_scan-Atomic, apply_reward_scan-WellFormed,
}
use collator.Store.Rebase.{RewardGapApproval, trimmed, acknowledge_pruned_reward_gap}
use collator.Store.Rebase.Laws.{Rebased, acknowledge-Atomic}

-- A database that answers every statement.
abbrev works : Faults
works s = ok tt

abbrev tables : Db
tables = record { monitor_state = some (pos 100, sample_rewards); events = []; audits = [] }

abbrev next : RewardOverview
next = record sample_rewards { last_scanned_block = pos 102 }

abbrev found : List RewardObservation
found = short_credit 101 "a1" ∷ []

abbrev approval : RewardGapApproval
approval = record { actor = "operator"; reason = "state was pruned"; action_id = "" }

tables-WellFormed : WellFormed tables
tables-WellFormed = record {
  unique = tt;
  cursor = λ c payload e.
      let at : pos 100 ≡ c = cc e in
      let it : sample_rewards ≡ payload = cc e in rw⁻¹ (at, it) (refl, tt);
}

apply_reward_scan-Atomic_example :
    Atomic tables
      (λ db' _. Applied tables (pos 100) next found db')
      (apply_reward_scan works minute tables (pos 100) next found)
apply_reward_scan-Atomic_example =
    apply_reward_scan-Atomic works minute tables (pos 100) next found (omega arith, omega arith)
      (omega arith, omega arith)

apply_reward_scan-WellFormed_example :
    WellFormed (apply_reward_scan works minute tables (pos 100) next found).0
apply_reward_scan-WellFormed_example =
    apply_reward_scan-WellFormed works minute tables (pos 100) next found (omega arith, omega arith)
      (omega arith, omega arith) tables-WellFormed

acknowledge-Atomic_example :
    Atomic tables (Rebased tables (pos 100) (pos 936) (pos 1000) (trimmed approval)) (
      acknowledge_pruned_reward_gap works minute "id" tables
        (pos 100)
        (pos 936)
        (pos 1000)
        approval)
acknowledge-Atomic_example =
    acknowledge-Atomic works minute "id" tables (pos 100) (pos 936) (pos 1000) approval
      (omega arith) (omega arith, omega arith) (omega arith, omega arith)
