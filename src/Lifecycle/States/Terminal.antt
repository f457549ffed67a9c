-- ===== src/Lifecycle/States/Terminal.antt =====
-- Which rows count as finished, for a row that holds one of the enumeration's texts.
mod Examples
use na_sso.Prelude.{
  ℕ, String, ◌≡◌, ◌≢◌, refl, Bool, true, false, ◌⊎◌, ◌↔◌, Option, none, some, arith, ◌&&◌, not,
  is_some, if◌then◌else◌, ◌||◌,
}
use na_sso.Lifecycle.Values.{
  DesiredAction, ensure, delete, SyncStateValue, ok, failed, unsupported, unassigned, not_assigned,
  pending, retired, pending_disable, to_string, of_string, of_string-to_string,
}
use na_sso.Lifecycle.States.{
  settle, normalise_sync_state, presentation, present_sync_state, sync_state_payload,
  sync_state_is_terminal, delete_terminal,
}

-- A stored value is normalised without its text.
pub normalise-to_string :
    (value : SyncStateValue) (assigned is_retired : Bool)
    → normalise_sync_state (some (to_string value)) assigned is_retired
      ≡ (if is_retired then retired else settle assigned value)
unfolding normalise_sync_state
normalise-to_string value assigned is_retired = rw (of_string-to_string value)

settle_idem :
    (assigned : Bool) (value : SyncStateValue)
    → settle assigned (settle assigned value) ≡ settle assigned value
unfolding settle
settle_idem assigned value = ground arith

normalise_stored :
    (value : SyncStateValue) (assigned is_retired : Bool)
    → normalise_sync_state
        (some (to_string (normalise_sync_state (some (to_string value)) assigned is_retired)))
        assigned
        is_retired
      ≡ normalise_sync_state (some (to_string value)) assigned is_retired
normalise_stored value assigned true = rw normalise-to_string (rw normalise-to_string refl)
normalise_stored value assigned false = simp normalise-to_string (settle_idem assigned value)

-- For a row with a stored value, the payload's presentation, which is taken of the normalised state,
-- is the presentation of the row itself.
pub presentation-sync_state_payload :
    (value : SyncStateValue) (assigned is_retired : Bool) (desired : DesiredAction)
    (detail : String) (attempts : ℕ) (next_retry_at : Option ℕ) (operation_id : Option String)
    → (sync_state_payload
        (some (to_string value))
        assigned
        is_retired
        desired
        detail
        attempts
        next_retry_at
        operation_id).presentation
      ≡ present_sync_state (some (to_string value)) assigned is_retired desired next_retry_at
unfolding sync_state_payload present_sync_state
presentation-sync_state_payload value assigned is_retired desired detail attempts next_retry_at
      operation_id =
    rw (normalise_stored value assigned is_retired)
