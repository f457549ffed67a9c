-- ===== src/Lifecycle/Transition/Conflicts/Examples.antt =====
-- Runs of the conflict rules.
use na_sso.Prelude.{◌≡◌, ◌≢◌, true, false, ◌↔◌, some}
use na_sso.Lifecycle.Values.{LifecycleCommand, update, delete, running}
use na_sso.Lifecycle.Transition.{decide_transition, is_active, supersede}
use na_sso.Lifecycle.Transition.Conflicts.{supersede_iff}

supersede_iff_example :
    ((decide_transition (some update) (some running) false delete).mode ≡ supersede) ↔ (
      (LifecycleCommand.delete ≡ delete)
      × (is_active (some update) (some running) ≡ true)
      × (some update ≢ some delete))
supersede_iff_example = supersede_iff (some update) (some running) false delete
