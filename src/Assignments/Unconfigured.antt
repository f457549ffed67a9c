-- ===== src/Assignments/Unconfigured.antt =====
-- A profile that names a target which is not configured any more.
use na_sso.Prelude.{
  String, ◌≡◌, ◌≢◌, refl, sym, ap, ◌∙◌, inl, inr, Bool, true, false, ◌&&◌, none, some, is_some,
  List, [], ◌∷◌, str_eq, eq_iff, arith, Bool-cases, Option-cases,
}
use na_sso.Outcome.{Fault, value_error, key_error, Outcome, returned, raised}
use na_sso.Lifecycle.Values.{update}
use na_sso.Models.{is_root, SyncState, LifecycleOperation, UnitOfWork}
use na_sso.Connectors.{Connector, connector_for}
use na_sso.Operations.{request_operation}
use na_sso.Sync.Conclude.{World}
use na_sso.Users.{
  Wanted, set_pending, select_rows, unselect, select_row, selected_rows, some_target,
}
use na_sso.Assignments.{
  UserAssignmentException, Intents, contains, apply_exceptions, base_intents,
  resolve_assignment_intents,
}
use na_sso.Assignments.Exceptions.{find_exception, put_exception}
use na_sso.Assignments.Lookup.{IsUnique, find_exception-put_exception, put_exception-IsUnique}
use na_sso.Assignments.Resolve.{has, effect, configured, has-apply_exceptions}
use na_sso.Assignments.Round.{contains-has}
use na_sso.Assignments.Handlers.{
  AssignmentWork, done, targets_of, intents_of, pending_done, requested, saved, is_acceptable,
  is_open_account, assignment_exception_save,
}

module _ (g : Wanted) (available : List Connector) (u : String)
    (gone : connector_for available u ≡ none) where
  other-target :
      (target : String) (c : Connector)
      → connector_for available target ≡ some c
      → str_eq u target ≡ false
  other-target target c found = elim (Bool-cases (str_eq u target)) [
    | inl same ↦
        let at_u : connector_for available u ≡ connector_for available target =
          ap (connector_for available) ((eq_iff u target).0 same) in
        let clash : some c ≡ none = sym found ∙ sym at_u ∙ gone in absurd (ground arith)
    | inr other ↦ other
  ]

  select_rows-raised :
      (selected : List String) (rows : List SyncState)
      → contains selected u ≡ true
      → select_rows g available selected rows ≡ raised key_error
  unfolding select_rows
  select_rows-raised [] rows h = cc
  select_rows-raised (target ∷ rest) rows h = elim (Option-cases (connector_for available target)) [
    | inl none_found ↦ rw none_found refl
    | inr (c, found) ↦
        let other = other-target target c found in
        rw found
          (select_rows-raised rest (select_row g c.needs_password target rows) (ground arith))
  ]

-- No call of `_set_pending` for such a target returns.
set_pending-raised :
    (available : List Connector) (u : String) (selected : List String) (w : UnitOfWork)
    → connector_for available u ≡ none
    → contains selected u ≡ true
    → (fault : Fault) × (after : UnitOfWork) × (set_pending available false false none selected w
        ≡ (raised fault, after))
unfolding set_pending
set_pending-raised available u selected w gone h =
    elim (Bool-cases (is_root w.user && some_target selected)) [
      | inl root ↦ (value_error "root account cannot have target assignments", w, rw root refl)
      | inr managed ↦ (
        key_error,
        w,
        rw managed (
            ap (λ o. selected_rows o w)
              (select_rows-raised
                (record {
                  has_password = false;
                  require_password_change = false;
                  remote_accounts_absent = false;
                })
                available u gone selected (unselect selected w.user.sync_states) h)),
      )
    ]

module _ (x : World) (detail : String) (u : String)
    (gone : connector_for x.available u ≡ none) where
  requested-stuck :
      (actor action : String) (before s s' : AssignmentWork) (id : String)
      (r : Outcome LifecycleOperation × UnitOfWork)
      → contains (targets_of (intents_of x s)) u ≡ true
      → requested x detail actor action before s r ≢ (returned (done id), s')
  requested-stuck actor action before s s' id (returned o, w) h e =
      let (fault, after, raises) =
        set_pending-raised x.available u (targets_of (intents_of x s)) w gone h in
      let same : pending_done x detail actor action o.id s (raised fault, after)
          ≡ (returned (done id), s') =
        sym (ap (pending_done x detail actor action o.id s) raises) ∙ e in
      absurd (ground arith)
  requested-stuck actor action before s s' id (raised fault, w) h e = absurd (ground arith)

module _ (x : World) (detail : String) (u : String) (gone : connector_for x.available u ≡ none)
    (s : AssignmentWork) (base : Intents) (has_profile : s.profile ≡ some base)
    (named : has u base ≡ true) (unique : IsUnique s.exceptions)
    (plain : find_exception u s.exceptions ≡ none) where
  still_intended :
      (e : UserAssignmentException)
      → str_eq e.target_id u ≡ false
      → contains (targets_of (intents_of x (saved e s))) u ≡ true
  unfolding resolve_assignment_intents
  still_intended e other =
      let start = base_intents x.available s.profile s.work.user.sync_states in
      let begins : has u start ≡ true =
        ap (λ p. has u (base_intents x.available p s.work.user.sync_states)) has_profile ∙ named in
      let none_left : find_exception u (put_exception e s.exceptions) ≡ none =
        find_exception-put_exception u e s.exceptions ∙ rw other plain in
      contains-has u (apply_exceptions x.available (put_exception e s.exceptions) start)
      ∙ has-apply_exceptions x.available u (put_exception e s.exceptions) start
          (put_exception-IsUnique e s.exceptions unique)
      ∙ ap (effect (configured x.available u) (has u start)) none_left
      ∙ begins

  acceptable-other :
      (is_safe : String → Bool) (e : UserAssignmentException)
      → is_acceptable x is_safe detail e ≡ true
      → str_eq e.target_id u ≡ false
  acceptable-other is_safe e h = elim (Bool-cases (str_eq e.target_id u)) [
    | inr other ↦ other
    | inl same ↦
        let nowhere : is_some (connector_for x.available e.target_id) ≡ false =
          ap (λ t. is_some (connector_for x.available t)) ((eq_iff e.target_id u).0 same)
          ∙ ap is_some gone in
        absurd (ground arith)
  ]

  -- For an account whose profile names a target that is not configured any more, and that has no exception
  -- for it, no form of an exception is ever saved: each one is refused, or ends in an error.
  pub assignment_exception_save-stuck :
      (is_safe : String → Bool) (e : UserAssignmentException) (id : String) (s' : AssignmentWork)
      → assignment_exception_save x is_safe detail e s ≢ (returned (done id), s')
  unfolding assignment_exception_save
  assignment_exception_save-stuck is_safe e id s' =
      elim (Bool-cases (is_acceptable x is_safe detail e)) [
        | inr refused ↦ rw refused (λ h. absurd (ground arith))
        | inl fits ↦ rw fits (elim (Bool-cases (is_open_account s.work.user)) [
          | inr closed ↦ rw closed (λ h. absurd (ground arith))
          | inl open_account ↦ rw open_account (
              requested-stuck x detail u gone e.updated_by "assignment_exception.updated" s
                (saved e s) s' id (request_operation x.now x.new_id update e.updated_by none s.work)
                (still_intended e (acceptable-other is_safe e fits)))
        ])
      ]
