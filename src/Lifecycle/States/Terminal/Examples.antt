-- ===== src/Lifecycle/States/Terminal/Examples.antt =====
-- Runs of the state presentation.
use na_sso.Prelude.{◌≡◌, false, true, none, some}
use na_sso.Lifecycle.Values.{DesiredAction, failed, to_string}
use na_sso.Lifecycle.States.{present_sync_state, sync_state_payload}
use na_sso.Lifecycle.States.Terminal.{presentation-sync_state_payload}

presentation-sync_state_payload_example :
    (sync_state_payload
      (some (to_string failed))
      true
      false
      DesiredAction.ensure
      ""
      1
      (some 50)
      none).presentation
    ≡ present_sync_state (some (to_string failed)) true false DesiredAction.ensure (some 50)
presentation-sync_state_payload_example =
    presentation-sync_state_payload failed true false DesiredAction.ensure "" 1 (some 50) none
