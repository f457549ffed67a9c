-- ===== src/Operations/Single.antt =====
-- An account has at most one unfinished operation, the one that its pointer names.
use na_sso.Prelude.{
  ℕ, String, ◌≡◌, ◌≢◌, refl, true, false, inl, inr, Option, none, some, List, ◌∷◌, [], arith,
  eq_iff, Bool-cases, str_append, eq_refl, is_some, holds_text-eq,
}
use na_sso.Lifecycle.Values.{
  LifecycleCommand, purge, OperationStatus, terminal, cancelled, command_value,
}
use mathlib.Core.Option
use na_sso.Lifecycle.Transition.Conflicts.{start_cases}
use na_sso.Lifecycle.Transition.{
  is_active, TransitionMode, start, reuse, supersede, reject, decide_transition,
}
use na_sso.Models.{LifecycleOperation, UnitOfWork}
use na_sso.Operations.Rows.{find, find-append, find-modify}
use na_sso.Operations.{
  get_active_operation, finish_operation, create_operation, perform, request_operation, look_up,
  keep_active, finished,
}

-- Every unfinished operation of the account is the active one.
pub record IsSingle (w : UnitOfWork) : Type 0 where
  pub only :
      (id : String) (o : LifecycleOperation)
      → find id w.operations ≡ some o
      → o.user_id ≡ some w.user.id
      → terminal o.status ≡ false
      → w.user.active_operation_id ≡ some id

get_active_operation-IsSingle : (w : UnitOfWork) → IsSingle w → IsSingle (get_active_operation w).1
unfolding get_active_operation
get_active_operation-IsSingle w s = record { only = λ id o f u t. ground (arith, s.only id o) }

-- What the reading of the pointer gives: an unfinished operation that is still pointed at, or an idle account.
abbrev pub Reads : Option LifecycleOperation → UnitOfWork → Type 0
Reads none w = w.user.active_operation_id ≡ none
Reads (some a) w =
    (find a.id w.operations ≡ some a)
    × (terminal a.status ≡ false)
    × (w.user.active_operation_id ≡ some a.id)

pub find-id :
    (id : String) (l : List LifecycleOperation) (o : LifecycleOperation)
    → find id l ≡ some o
    → o.id ≡ id
unfolding find
find-id id [] o h = cc
find-id id (x ∷ l) o h = ground (arith, eq_iff x.id id, find-id id l o)

keep_active-Reads :
    (id : String) (r : Option LifecycleOperation) (w : UnitOfWork)
    → find id w.operations ≡ r
    → w.user.active_operation_id ≡ some id
    → let (a, w') = keep_active r w in Reads a w'
keep_active-Reads id none w f e = refl
keep_active-Reads id (some o) w f e =
    let named = find-id id w.operations o f in
    elim (Bool-cases (terminal o.status)) [
      | inl over ↦ rw over refl
      | inr open_still ↦ rw open_still (cc, open_still, cc)
    ]

look_up-Reads :
    (p : Option String) (w : UnitOfWork)
    → w.user.active_operation_id ≡ p
    → let (a, w') = look_up p w in Reads a w'
look_up-Reads none w e = e
look_up-Reads (some id) w e = keep_active-Reads id (find id w.operations) w refl e

pub get_active_operation-Reads :
    (w : UnitOfWork) → let (a, w') = get_active_operation w in Reads a w'
unfolding get_active_operation
get_active_operation-Reads w = look_up-Reads w.user.active_operation_id w refl

create_operation-IsSingle :
    (now : ℕ) (new_id : String) (command : LifecycleCommand) (actor : String)
    (target : Option String) (supersedes : Option LifecycleOperation) (w : UnitOfWork)
    → find new_id w.operations ≡ none
    → w.user.active_operation_id ≡ none
    → IsSingle w
    → IsSingle (create_operation now new_id command actor target supersedes w).1
unfolding create_operation
create_operation-IsSingle now new_id command actor target supersedes w fresh idle s = record {
  only = λ id o f u t. ground (
    arith,
    s.only id o,
    eq_iff new_id id,
    find-append id w.operations (create_operation now new_id command actor target supersedes w).0
        fresh,
  );
}

finish_operation-IsSingle :
    (now : ℕ) (id : String) (status : OperationStatus) (completed failures : ℕ) (detail : String)
    (w : UnitOfWork)
    → IsSingle w
    → IsSingle (finish_operation now id status completed failures detail w).1
unfolding finish_operation
finish_operation-IsSingle now id status completed failures detail w s = record {
  only = λ j o f u t. ground (
    arith,
    s.only j o,
    find-modify id j (finished now status completed failures detail) w.operations (λ o. refl),
    eq_iff id j,
    holds_text-eq w.user.active_operation_id id,
  );
}

-- A finished operation is no longer pointed at, and no row is added.
pub finish_operation-idle :
    (now : ℕ) (id j : String) (status : OperationStatus) (completed failures : ℕ) (detail : String)
    (w : UnitOfWork)
    → terminal status ≡ true
    → w.user.active_operation_id ≡ some id
    → find j w.operations ≡ none
    → let w' = (finish_operation now id status completed failures detail w).1 in
      (w'.user.active_operation_id ≡ none) × (find j w'.operations ≡ none)
unfolding finish_operation
finish_operation-idle now id j status completed failures detail w t e f = ground (
  arith,
  find-modify id j (finished now status completed failures detail) w.operations (λ o. refl),
  eq_refl id,
)

inactive-none :
    (a : Option LifecycleOperation) (w : UnitOfWork)
    → Reads a w
    → is_active (Option.map (λ o. o.command) a) (Option.map (λ o. o.status) a) ≡ false
    → a ≡ none
inactive-none none w r h = refl
inactive-none (some o) w r h = ground (arith, r.1)

module _ (now : ℕ) (new_id : String) (command : LifecycleCommand) (actor : String)
    (target : Option String) where
  perform-IsSingle :
      (mode : TransitionMode) (reason : String) (active : Option LifecycleOperation)
      (w : UnitOfWork)
      → (mode ≡ start → active ≡ none)
      → find new_id w.operations ≡ none
      → Reads active w
      → IsSingle w
      → IsSingle (perform now new_id mode reason active command actor target w).1
  unfolding perform
  perform-IsSingle reject reason active w quiet fresh r s = s
  perform-IsSingle reuse reason none w quiet fresh r s = s
  perform-IsSingle reuse reason (some o) w quiet fresh r s = s
  perform-IsSingle supersede reason (some o) w quiet fresh r s =
      let detail = str_append "superseded by " (command_value command) in
      let w' =
        (finish_operation now o.id cancelled o.completed_targets o.failed_targets detail w).1 in
      let (idle, fresh') =
        finish_operation-idle now o.id new_id cancelled o.completed_targets o.failed_targets detail
          w refl r.2 fresh in
      create_operation-IsSingle now new_id command actor target (some o) w' fresh' idle (
        finish_operation-IsSingle now o.id cancelled o.completed_targets o.failed_targets detail w
          s)
  perform-IsSingle supersede reason none w quiet fresh r s =
      create_operation-IsSingle now new_id command actor target none w fresh r s
  perform-IsSingle start reason active w quiet fresh r s =
      create_operation-IsSingle now new_id command actor target none w fresh (rw (quiet refl) at r)
        s

  pub get_active_operation-operations :
      (w : UnitOfWork) → (get_active_operation w).1.operations ≡ w.operations
  unfolding get_active_operation
  get_active_operation-operations w = ground arith

  -- From an account with at most one unfinished operation, a request, granted or refused, leaves at
  -- most one, the active one. The new key is unused, and the command is no purge.
  pub request_operation-IsSingle :
      (w : UnitOfWork)
      → command ≢ purge
      → find new_id w.operations ≡ none
      → IsSingle w
      → IsSingle (request_operation now new_id command actor target w).1
  unfolding request_operation
  request_operation-IsSingle w np fresh s =
      let (active, w') = get_active_operation w in
      let reads = get_active_operation-Reads w in
      let held = Option.map (λ (o : LifecycleOperation). o.command) active in
      let state = Option.map (λ (o : LifecycleOperation). o.status) active in
      let complete = is_some w'.user.deleted_at in
      let decision = decide_transition held state complete command in
      perform-IsSingle decision.mode decision.reason active w'
        (λ h. elim ((start_cases held state complete command h).0) [
          | inl idle ↦ inactive-none active w' reads idle
          | inr purged ↦ absurd (np purged.0)
        ])
        (rw get_active_operation-operations fresh) reads (get_active_operation-IsSingle w s)
