-- ===== src/Sync/Scope.antt =====
-- na_sso/sync.py: which rows one run of `_sync_user` takes, and the loop over them.
use na_sso.Prelude.{
  String, Bool, true, false, not, ◌&&◌, ◌||◌, Option, none, some, is_some, List, [], ◌∷◌,
  holds_text, if◌then◌else◌, str_eq,
}
use na_sso.Lifecycle.Values.{
  DesiredAction, SyncStateValue, failed, unsupported, chpw, pending_disable, to_string,
}
use na_sso.Lifecycle.States.{sync_state_is_terminal}
use na_sso.Models.{SyncState, UnitOfWork}
use na_sso.Connectors.{Connector, connector_for}
use na_sso.Sync.Rows.{Job, sync_row}

-- `target is None or state.target == target`.
abbrev pub is_wanted : Option String → SyncState → Bool
is_wanted none row = true
is_wanted (some target) row = str_eq row.target target

abbrev pub is_offboarding : SyncStateValue → Bool
is_offboarding pending_disable = true
is_offboarding failed = true
is_offboarding _ = false

abbrev pub is_chpw : SyncStateValue → Bool
is_chpw chpw = true
is_chpw _ = false

module _ (deleting : Bool) (target : Option String) (available : List Connector) where
  -- `scope_states`
  unfoldable pub in_scope : SyncState → Bool
  in_scope row =
      if deleting
      then is_wanted target row
      else (row.assigned || is_offboarding row.state)
        && not row.retired
        && is_some (connector_for available row.target)
        && not (is_chpw row.state)
        && is_wanted target row

  -- `connector_states`
  unfoldable pub is_reached : SyncState → Bool
  unfolding in_scope
  is_reached row = in_scope row && (not row.retired && is_some (connector_for available row.target))

abbrev pub belongs : String → SyncState → Bool
belongs id row = holds_text row.operation_id id

-- `state.operation_id = operation.id` on the rows in scope.
unfoldable pub mark : (SyncState → Bool) → String → List SyncState → List SyncState
mark scope id [] = []
mark scope id (row ∷ rest) =
    (if scope row then record row { operation_id = some id } else row) ∷ mark scope id rest

-- The loop over the reached rows, in the order of the account's rows.
unfoldable pub sync_rows :
    Job → (SyncState → Bool) → List SyncState → UnitOfWork → List SyncState × UnitOfWork
sync_rows job reached [] w = ([], w)
sync_rows job reached (row ∷ rest) w =
    let (row', w₁) = if reached row then sync_row job row w else (row, w) in
    let (rest', w₂) = sync_rows job reached rest w₁ in (row' ∷ rest', w₂)

abbrev pub is_failure : SyncState → Bool
is_failure row = elim row.state [ failed ↦ true | unsupported ↦ true | _ ↦ false ]

unfoldable pub is_finished : DesiredAction → SyncState → Bool
is_finished desired row =
    sync_state_is_terminal (some (to_string row.state)) desired row.assigned row.retired
