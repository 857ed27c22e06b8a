-- ===== src/Agent/Guard/Once.antt =====
-- The identifiers of actions in the guard's file.
use collator.Prelude.{some, String, ◌≡◌}
use collator.Agent.Guard.{GuardState, GuardResult, find_result}

-- The file knows the action.
abbrev pub Known : String → GuardState → Type 0
Known id s = (g : GuardResult) × (find_result id s.processed ≡ some g)
