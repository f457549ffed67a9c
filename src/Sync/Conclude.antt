-- ===== src/Sync/Conclude.antt =====
-- na_sso/sync.py: what `_sync_user` makes of the rows at its end.
use na_sso.Prelude.{
  ℕ, String, Bool, true, false, not, ◌&&◌, Option, none, some, is_some, List, ◌==◌, ltb, length,
  filter, all, if◌then◌else◌, str_eq, str_append,
}
use na_sso.Lifecycle.Values.{
  DesiredAction, is_delete, SyncStateValue, failed, unsupported, OperationStatus, succeeded,
  partially_failed, terminal, status_value,
}
use na_sso.Models.{SyncState, ManagedUser, LifecycleOperation, UnitOfWork}
use na_sso.Connectors.{SyncResult, ConnectorOperation, Connector, connector_for}
use na_sso.Operations.Rows.{find, modify}
use na_sso.Operations.{finish_operation}
use na_sso.Sync.Rows.{SyncSettings, notified}
use na_sso.Sync.Scope.{belongs, is_failure, is_finished}

-- What the worker reads from outside the account: its settings, the clock, an unused key, the
-- connectors with their remote calls, the resolved memberships, Fernet's decryption and the decimal
-- text of a number.
pub record World : Type 0 where
  pub settings : SyncSettings
  pub now : ℕ
  pub new_id : String
  pub available : List Connector
  pub intents : String → Option (List String)
  pub remote :
      Connector → ConnectorOperation → ManagedUser → Option String → List String → SyncResult
  pub decrypt_secret : String → String
  pub decimal : ℕ → String

abbrev pub is_ok : SyncState → Bool
is_ok row = elim row.state [ SyncStateValue.ok ↦ true | _ ↦ false ]

-- The assigned rows whose target is configured.
abbrev pub is_live : List Connector → SyncState → Bool
is_live available row =
    row.assigned && not row.retired && is_some (connector_for available row.target)

-- The password is dropped when every assigned target, of at least one, has taken it.
abbrev pub settled_secret : List Connector → List SyncState → Option String → Option String
settled_secret available rows secret =
    let live = filter (is_live available) rows in
    if ltb 0 (length live) && all is_ok live then none else secret

abbrev pub counted : (ℕ → String) → ℕ → String → String
counted decimal n text = if ltb 0 n then str_append (decimal n) text else ""

abbrev pub joined : String → String → String
joined a b = if str_eq a "" then b else if str_eq b "" then a else str_append a (str_append "; " b)

abbrev pub failure_detail : (ℕ → String) → List SyncState → String
failure_detail decimal failures =
    let plain = length (filter (λ row. elim row.state [ failed ↦ true | _ ↦ false ]) failures) in
    let declined =
      length (filter (λ row. elim row.state [ unsupported ↦ true | _ ↦ false ]) failures) in
    joined (counted decimal plain " target operation(s) failed")
      (counted decimal declined " target operation(s) unsupported")

module _ (x : World) (desired : DesiredAction) (id : String) where
  abbrev pub mine : UnitOfWork → List SyncState
  mine w = filter (belongs id) w.user.sync_states

  abbrev pub settle_user : UnitOfWork → ManagedUser
  settle_user w =
      if is_delete desired then record w.user { deleted_at = some x.now } else record w.user {
        pending_secret = settled_secret x.available w.user.sync_states w.user.pending_secret;
      }

  -- The status of the operation from the states of its rows.
  abbrev pub close : ℕ → ℕ → UnitOfWork → UnitOfWork
  close done failures w =
      if ltb 0 failures
      then (finish_operation x.now id
          (if ltb failures done then partially_failed else OperationStatus.failed) done failures
          (failure_detail x.decimal (filter is_failure (mine w))) w).1
      else if done == length (mine w)
      then (finish_operation x.now id succeeded done 0 "" (record w { user = settle_user w })).1
      else w

  abbrev pub announce : Option LifecycleOperation → UnitOfWork → UnitOfWork
  announce none w = w
  announce (some o) w =
      if terminal o.status
      then notified "lifecycle.completed" (str_append id (str_append ":" (status_value o.status)))
          (status_value o.status) w
      else w

  unfoldable pub conclude : UnitOfWork → UnitOfWork
  conclude w =
      let done = length (filter (is_finished desired) (mine w)) in
      let failures = length (filter is_failure (mine w)) in
      let w₁ = record w {
        operations =
            modify id (λ o. record o { completed_targets = done; failed_targets = failures })
              w.operations;
      } in
      let w₂ = close done failures w₁ in announce (find id w₂.operations) w₂
