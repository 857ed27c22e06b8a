-- ===== src/Controller/History/Progress.antt =====
-- When a step of the scan succeeds.
use collator.Prelude.{List, none}
use collator.Model.{RewardOverview, RewardObservation, RewardScan}
use collator.Controller.History.{ScanState, Dependencies, settle}

-- The observations as they are written.
abbrev pub confirmed :
    Dependencies → ScanState → RewardOverview → RewardScan → List RewardObservation
confirmed d c previous scan =
    (settle d c.externals (record previous { recovery = none }) scan.observations).2
