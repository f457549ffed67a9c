-- ===== src/Users/Withheld.antt =====
-- A restored account gets nothing on its targets before its password is changed.
use na_sso.Prelude.{
  String, ◌≡◌, refl, sym, ap, subst, ◌∙◌, inl, inr, Bool, true, false, not, ◌&&◌, ◌||◌, Option,
  none, some, List, [], ◌∷◌, str_eq, eq_iff, eq_refl, arith, Bool-cases, Option-cases,
  if◌then◌else◌,
}
use na_sso.Outcome.{Outcome, returned, raised}
use na_sso.Lifecycle.Values.{chpw}
use na_sso.Models.{SyncState, UnitOfWork, LifecycleOperation}
use na_sso.Connectors.{Connector, connector_for}
use na_sso.Sync.{row_for}
use na_sso.Mfa.Rows.{Text}
use na_sso.Auth.{Guarded, admitted, turned_away}
use na_sso.Sync.Conclude.{World}
use na_sso.Passwords.{PasswordError}
use na_sso.Passwords.Action.{PasswordWorld}
use na_sso.Assignments.{resolve_assignment_intents}
use na_sso.Assignments.Handlers.{targets_of}
use na_sso.Users.Selection.{set_pending-returned}
use na_sso.Users.Restore.{
  RestoreWork, RestoreReply, unavailable, mismatch, restored, is_removed, kept_hash, reactivated,
  restore_pending, restore_requested, restore_valid, restore_user,
}
use na_sso.Users.{
  is_in, unselect, Wanted, select, select_row, select_next, select_rows, set_pending,
}

-- The row of a target, if it is assigned, waits for a change of the password.
abbrev pub IsHeld : String → List SyncState → Type 0
IsHeld target rows =
    (row : SyncState) → row_for target rows ≡ some row → row.assigned ≡ true → row.state ≡ chpw

abbrev pub withholding : Bool → Wanted
withholding has_password = record {
  has_password = has_password;
  require_password_change = true;
  remote_accounts_absent = true;
}

module _ (b needs : Bool) (t : String) where
  select_row-IsHeld : (rows : List SyncState) → IsHeld t (select_row (withholding b) needs t rows)
  unfolding select_row row_for select
  select_row-IsHeld [] = λ row e a. ground (arith, eq_refl t)
  select_row-IsHeld (r ∷ rest) = elim (Bool-cases (str_eq r.target t)) [
    | inl e ↦ rw e (λ row h a. ground (arith, e))
    | inr e ↦ rw e (λ row h a. select_row-IsHeld rest row (ground (arith, e)) a)
  ]

  select_row-other :
      (u : String) (rows : List SyncState)
      → str_eq t u ≡ false
      → row_for u (select_row (withholding b) needs t rows) ≡ row_for u rows
  unfolding select_row row_for select
  select_row-other u [] h = ground arith
  select_row-other u (row ∷ rest) h = elim (Bool-cases (str_eq row.target t)) [
    | inl e ↦
        let same : row.target ≡ t = (eq_iff row.target t).0 e in
        let other : str_eq row.target u ≡ false = subst (λ v. str_eq v u ≡ false) (sym same) h in
        rw e (rw other refl)
    | inr e ↦ rw e (elim (Bool-cases (str_eq row.target u)) [
      | inl k ↦ rw k refl
      | inr k ↦ rw k (select_row-other u rest h)
    ])
  ]

unselect-IsHeld :
    (u : String) (selected : List String) (rows : List SyncState)
    → is_in selected u ≡ false
    → IsHeld u (unselect selected rows)
unfolding unselect row_for
unselect-IsHeld u selected [] out = λ row e a. ground arith
unselect-IsHeld u selected (r ∷ rest) out = elim (Bool-cases (str_eq r.target u)) [
  | inl same ↦
      let gone : is_in selected r.target ≡ false =
        subst (λ v. is_in selected v ≡ false) (sym ((eq_iff r.target u).0 same)) out in
      elim (Bool-cases r.assigned) [
        | inl k ↦ rw gone (rw k (rw same (λ row e a. ground arith)))
        | inr k ↦ rw gone (rw k (rw same (λ row e a. ground arith)))
      ]
  | inr other ↦ elim (Bool-cases (not (is_in selected r.target) && r.assigned)) [
    | inl k ↦ rw k (rw other (unselect-IsHeld u selected rest out))
    | inr k ↦ rw k (rw other (unselect-IsHeld u selected rest out))
  ]
]

select_rows-IsHeld :
    (b : Bool) (available : List Connector) (u : String) (targets : List String)
    (rows rows' : List SyncState)
    → (is_in targets u ≡ false → IsHeld u rows)
    → select_rows (withholding b) available targets rows ≡ returned rows'
    → IsHeld u rows'
unfolding select_rows
select_rows-IsHeld b available u [] rows rows' h e =
    let same : rows ≡ rows' = ground arith in subst (IsHeld u) same (h refl)
select_rows-IsHeld b available u (target ∷ rest) rows rows' h e =
    elim (Option-cases (connector_for available target)) [
      | inl gone ↦
          let raises =
            sym (
              ap
                (λ o. select_next o (λ c.
                  select_rows (withholding b) available rest
                    (select_row (withholding b) c.needs_password target rows)))
                gone)
            ∙ e in
          ground arith
      | inr (connector, found) ↦
          select_rows-IsHeld b available u rest
            (select_row (withholding b) connector.needs_password target rows) rows'
            (λ out. elim (Bool-cases (str_eq target u)) [
              | inl k ↦
                  subst
                    (λ v.
                      IsHeld v (select_row (withholding b) connector.needs_password target rows))
                    ((eq_iff target u).0 k)
                    (select_row-IsHeld b connector.needs_password target rows)
              | inr k ↦ λ row at a.
                  h (ground (arith, eq_iff target u, eq_iff u target)) row
                    (sym (select_row-other b connector.needs_password target u rows k) ∙ at) a
            ])
            (sym (
                ap
                  (λ o. select_next o (λ c.
                    select_rows (withholding b) available rest
                      (select_row (withholding b) c.needs_password target rows)))
                  found)
              ∙ e)
    ]

module _ (x : World) (p : PasswordWorld) where
  restore_pending-restored :
      (admin id key : String) (s s' : RestoreWork) (o : Outcome (Unit {0}) × UnitOfWork)
      → restore_pending x p admin id s o ≡ (returned (restored key), s')
      → (w : UnitOfWork) × (o ≡ (returned tt, w)) × (s'.work.user ≡ w.user)
  restore_pending-restored admin id key s s' (returned tt, w) e = (w, refl, ground arith)
  restore_pending-restored admin id key s s' (raised fault, w) e = ground arith

  restore_requested-IsHeld :
      (admin key : String) (password : Text) (s s' : RestoreWork)
      (o : Outcome LifecycleOperation × UnitOfWork)
      → restore_requested x p admin password s o ≡ (returned (restored key), s')
      → (s'.work.user.deleted_at ≡ none) × ((t : String) → IsHeld t s'.work.user.sync_states)
  restore_requested-IsHeld admin key password s s' (raised fault, w) e = ground arith
  restore_requested-IsHeld admin key password s s' (returned o, w) e =
      let v = reactivated x p password w in
      let intents =
        resolve_assignment_intents x.available s.profile s.exceptions v.user.sync_states in
      let (w', done, same) =
        restore_pending-restored admin o.id key
          (record s { history = kept_hash w.user.password_hash s.history }) s'
          (set_pending x.available true true (some (p.encrypt_secret password)) (targets_of intents)
            v)
          e in
      let (made, kept) =
        set_pending-returned x.available true true (some (p.encrypt_secret password))
          (targets_of intents) v w' done in
      (
        ap (λ u. u.deleted_at) same ∙ kept,
        λ t.
            subst (λ u. IsHeld t u.sync_states) (sym same)
              (select_rows-IsHeld true x.available t (targets_of intents)
                (unselect (targets_of intents) v.user.sync_states) w'.user.sync_states
                (unselect-IsHeld t (targets_of intents) v.user.sync_states) made),
      )

  restore_valid-IsHeld :
      (admin key : String) (password : Text) (errors : List PasswordError) (s s' : RestoreWork)
      → restore_valid x p admin password errors s ≡ (returned (restored key), s')
      → (s'.work.user.deleted_at ≡ none) × ((t : String) → IsHeld t s'.work.user.sync_states)
  restore_valid-IsHeld admin key password [] s s' e =
      restore_requested-IsHeld admin key password s s' _ e
  restore_valid-IsHeld admin key password (err ∷ errors) s s' e = ground arith

  admitted_cases :
      (may removed blank typo : Bool) (o : Outcome RestoreReply × RestoreWork) (s s' : RestoreWork)
      (key : String)
      → (if not (may && removed) || blank
          then (returned unavailable, s)
          else if typo
          then (returned mismatch, s)
          else o)
        ≡ (returned (restored key), s')
      → (removed ≡ true) × (o ≡ (returned (restored key), s'))
  admitted_cases true true false false o s s' key e = (refl, e)
  admitted_cases true true false true o s s' key e = ground arith
  admitted_cases true true true typo o s s' key e = ground arith
  admitted_cases true false blank typo o s s' key e = ground arith
  admitted_cases false removed blank typo o s s' key e = ground arith

  -- If the restore handler answers that the account is restored, its deletion was complete before, it
  -- does not count as deleted any more, and the row that is found for a target, if it is assigned,
  -- waits for the change of the password.
  pub restore_user-IsHeld :
      (reply : Guarded) (password : Text) (confirm_password : Option Text) (s s' : RestoreWork)
      (key : String)
      → restore_user x p reply password confirm_password s ≡ (returned (restored key), s')
      → (is_removed s.work.user ≡ true)
        × (s'.work.user.deleted_at ≡ none)
        × ((t : String) → IsHeld t s'.work.user.sync_states)
  unfolding restore_user
  restore_user-IsHeld (turned_away r) password confirm_password s s' key e = ground arith
  restore_user-IsHeld (admitted principal) password confirm_password s s' key e =
      let (removed, o) = admitted_cases _ (is_removed s.work.user) _ _ _ s s' key e in
      let (kept, held) = restore_valid-IsHeld principal.username key _ _ s s' o in
      (removed, kept, held)
