-- ===== src/Sync/Loop.antt =====
-- What the loop of `_sync_user` leaves alone, and the rule to prove a property of its rows.
use na_sso.Prelude.{
  String, ◌≡◌, refl, ◌∙◌, Bool, true, false, not, ◌⊎◌, inl, inr, Option, none, some, List, [], ◌∷◌,
  arith, Bool-cases, All, Any, if◌then◌else◌,
}
use na_sso.Lifecycle.Values.{pending, unsupported}
use na_sso.Models.{SyncState, UnitOfWork}
use na_sso.Operations.Attempts.{start_target_attempt, finish_target_attempt}
use na_sso.Connectors.{SyncResult, Connector, connector_for, supports_operation}
use na_sso.Sync.Rows.{
  Job, sync_row, decline, attempt, record_result, operation_on, is_waiting, sync_with,
}
use na_sso.Sync.Scope.{sync_rows}

-- The columns that the worker never writes in the loop.
pub record SameKey (row row' : SyncState) : Type 0 where
  pub target : row'.target ≡ row.target
  pub assigned : row'.assigned ≡ row.assigned
  pub is_retired : row'.retired ≡ row.retired
  pub operation_id : row'.operation_id ≡ row.operation_id

-- The row before the remote call.
abbrev pub cleared : SyncState → SyncState
cleared row = record row { state = pending; detail = ""; next_retry_at = none }

sum_map : {P Q R S : Type 0} → P ⊎ Q → (P → R) → (Q → S) → R ⊎ S
sum_map (inl p) f g = inl (f p)
sum_map (inr q) f g = inr (g q)

module _ (job : Job) where
  -- A round leaves the row, declines it, or records the result of the remote call.
  pub sync_row_ind {ℓ} :
      (Q : SyncState → Type ℓ) (row : SyncState) (w : UnitOfWork)
      → Q row
      → ((detail : String)
          → Q (record row { state = unsupported; detail = detail; next_retry_at = none }))
      → ((result : SyncResult) → Q (record_result job (cleared row) result).0)
      → Q (sync_row job row w).0
  unfolding sync_row decline attempt
  sync_row_ind Q row w same declined called = by_connector (connector_for job.available row.target)
    where
      by_support :
          (c : Connector) (supported waiting : Bool)
          → Q
              (if not supported
                then decline job c row w
                else if waiting
                then (row, w)
                else attempt job c row w).0
      by_support c false waiting = declined _
      by_support c true true = same
      by_support c true false = called _

      by_connector : (c : Option Connector) → Q (sync_with job c row w).0
      by_connector none = same
      by_connector (some c) =
          by_support c (supports_operation c (operation_on job row)) (is_waiting job row)

  record_result-SameKey :
      (row : SyncState) (result : SyncResult) → SameKey row (record_result job row result).0
  unfolding record_result
  record_result-SameKey row result = ground arith

  pub sync_row-SameKey : (row : SyncState) (w : UnitOfWork) → SameKey row (sync_row job row w).0
  sync_row-SameKey row w =
      sync_row_ind (SameKey row) row w
        (record { target = refl; assigned = refl; is_retired = refl; operation_id = refl })
        (λ d. record { target = refl; assigned = refl; is_retired = refl; operation_id = refl })
        (λ result.
          let k = record_result-SameKey (cleared row) result in
          record {
            target = k.target;
            assigned = k.assigned;
            is_retired = k.is_retired;
            operation_id = k.operation_id;
          })

  -- A round writes no column of the account and no operation.
  pub sync_row_frame :
      (row : SyncState) (w : UnitOfWork)
      → ((sync_row job row w).1.user ≡ w.user) × ((sync_row job row w).1.operations ≡ w.operations)
  unfolding sync_row decline attempt start_target_attempt finish_target_attempt
  sync_row_frame row w = (ground arith, ground arith)

  pub sync_rows_frame :
      (reached : SyncState → Bool) (rows : List SyncState) (w : UnitOfWork)
      → ((sync_rows job reached rows w).1.user ≡ w.user)
        × ((sync_rows job reached rows w).1.operations ≡ w.operations)
  unfolding sync_rows
  sync_rows_frame reached [] w = (refl, refl)
  sync_rows_frame reached (row ∷ rest) w = elim (Bool-cases (reached row)) [
    | inl e ↦
        let w₁ = (sync_row job row w).1 in
        let (u, o) = sync_rows_frame reached rest w₁ in
        let (u₁, o₁) = sync_row_frame row w in rw (e, sync_rows) (u ∙ u₁, o ∙ o₁)
    | inr e ↦ rw (e, sync_rows) (sync_rows_frame reached rest w)
  ]

  -- A property that each round establishes for the rows it takes, and that the others have.
  pub sync_rows_ind {ℓ κ} :
      (P : SyncState → Type ℓ) (Q : SyncState → Type κ) (reached : SyncState → Bool)
      (rows : List SyncState) (w : UnitOfWork)
      → ((row : SyncState) (w : UnitOfWork) → reached row ≡ true → P row → Q (sync_row job row w).0)
      → ((row : SyncState) → reached row ≡ false → P row → Q row)
      → All P rows
      → All Q (sync_rows job reached rows w).0
  unfolding sync_rows
  sync_rows_ind P Q reached [] w took left ps = tt
  sync_rows_ind P Q reached (row ∷ rest) w took left (p, ps) = elim (Bool-cases (reached row)) [
    | inl e ↦
        rw (e, sync_rows)
          (took row w e p, sync_rows_ind P Q reached rest (sync_row job row w).1 took left ps)
    | inr e ↦ rw (e, sync_rows) (left row e p, sync_rows_ind P Q reached rest w took left ps)
  ]

  -- A property that each round keeps stays with the row that has it.
  pub sync_rows-Any :
      (P : SyncState → Type 0) (reached : SyncState → Bool) (rows : List SyncState) (w : UnitOfWork)
      → ((row : SyncState) (w : UnitOfWork) → P row → P (sync_row job row w).0)
      → Any P rows
      → Any P (sync_rows job reached rows w).0
  unfolding sync_rows
  sync_rows-Any P reached [] w keep h = h
  sync_rows-Any P reached (row ∷ rest) w keep h = elim (Bool-cases (reached row)) [
    | inl e ↦
        rw (e, sync_rows)
          (sum_map h (keep row w) (sync_rows-Any P reached rest (sync_row job row w).1 keep))
    | inr e ↦ rw (e, sync_rows) (sum_map h (λ p. p) (sync_rows-Any P reached rest w keep))
  ]
