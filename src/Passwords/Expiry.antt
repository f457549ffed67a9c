-- ===== src/Passwords/Expiry.antt =====
-- na_sso/models.py: `password_expires_at`. na_sso/sync.py: `expire_due`.
use na_sso.Prelude.{
  ℕ, ◌+◌, ◌*◌, String, Bool, true, false, not, ◌&&◌, ◌||◌, Option, none, some, is_some, List, [],
  ◌∷◌, ◌++◌, map, filter, leb, ltb, length, if◌then◌else◌, str_append,
}
use na_sso.Outcome.{Outcome, returned, raised}
use na_sso.Lifecycle.Values.{pending_expiry_disable}
use na_sso.Models.{
  AccountStatus, active, disabled, expired, is_root, is_temporary, SyncState, ManagedUser,
  UnitOfWork,
}
use na_sso.Sync.Conclude.{World}
use na_sso.Sync.{sync_user}
use na_sso.Passwords.{PasswordPolicy}
use na_sso.Passwords.Action.{day}

abbrev pub later_of : Option ℕ → Option ℕ → Option ℕ
later_of none expiry = expiry
later_of (some kept) none = some kept
later_of (some kept) (some t) = if ltb t kept then some kept else some t

abbrev pub aged : Option ℕ → ℕ → Option ℕ
aged none changed_at = none
aged (some days) changed_at = some (changed_at + days * day)

abbrev pub expiry_of : PasswordPolicy → Option ℕ → Option ℕ → Option ℕ
expiry_of policy keep_until none = none
expiry_of policy keep_until (some changed_at) =
    later_of keep_until (aged policy.expires_after_days changed_at)

unfoldable pub password_expires_at : PasswordPolicy → ManagedUser → Option ℕ
password_expires_at policy user =
    if is_root user || is_temporary user.password_decision_kind
    then none
    else expiry_of policy user.password_keep_until user.password_changed_at

abbrev pub is_past : ℕ → Option ℕ → Bool
is_past now none = false
is_past now (some t) = leb t now

abbrev pub is_enabled : AccountStatus → Bool
is_enabled active = true
is_enabled disabled = false

-- The query of the pass, and the comparison with the clock.
unfoldable pub is_due : PasswordPolicy → ℕ → ManagedUser → Bool
unfolding password_expires_at
is_due policy now user =
    not (is_root user)
    && is_enabled user.status
    && not user.password_decision_required
    && is_some user.password_changed_at
    && is_past now (password_expires_at policy user)

unfoldable pub gate_rows : List SyncState → List SyncState
gate_rows [] = []
gate_rows (row ∷ rest) =
    (if row.assigned && not row.retired
      then record row { state = pending_expiry_disable; next_retry_at = none }
      else row)
    ∷ gate_rows rest

abbrev pub text_of : (ℕ → String) → Option ℕ → String
text_of iso none = ""
text_of iso (some t) = iso t

-- The numbers and times as texts.
module _ (decimal iso : ℕ → String) (policy : PasswordPolicy) where
  abbrev pub gated : UnitOfWork → UnitOfWork
  gated w = record w {
    user = record w.user {
      password_decision_required = true;
      password_decision_kind = expired;
      sync_states = gate_rows w.user.sync_states;
    };
    audit =
        w.audit
        ++ record {
          actor = "system";
          action = "password.expired";
          subject = w.user.username;
          detail = "targets disabled pending password acknowledgement";
          operation_id = none;
        }
          ∷ [];
    notifications =
        w.notifications
        ++ record {
          event_type = "password.expired";
          dedupe_key =
              str_append (decimal w.user.id)
                (str_append ":" (text_of iso (password_expires_at policy w.user)));
          outcome = "expired";
        }
          ∷ [];
  }

  -- The pass over the accounts that is committed at once: each account, and whether it was gated.
  unfoldable pub gate_all : ℕ → List UnitOfWork → List (Bool × UnitOfWork)
  unfolding is_due gate_rows
  gate_all now [] = []
  gate_all now (w ∷ rest) =
      (if is_due policy now w.user then (true, gated w) else (false, w)) ∷ gate_all now rest

-- A run commits only where it returns an operation; a run that raises ends the pass.
abbrev pub ran : UnitOfWork → Outcome (Option String) × UnitOfWork → UnitOfWork
ran w (returned (some id), w') = w'
ran w (_, w') = w

abbrev pub is_raised : Outcome (Option String) → Bool
is_raised (raised fault) = true
is_raised (returned id) = false

module _ (worlds : ℕ → World) where
  abbrev pub run_expired : UnitOfWork → Outcome (Option String) × UnitOfWork
  run_expired w = sync_user (worlds w.user.id) none none "password-expiry" none w

  unfoldable pub run_gated : List (Bool × UnitOfWork) → Bool × List UnitOfWork
  run_gated [] = (true, [])
  run_gated ((gated, w) ∷ rest) =
      let later = run_gated rest in
      let run = run_expired w in
      if not gated
      then (later.0, w ∷ later.1)
      else if is_raised run.0
      then (false, w ∷ map (λ r. r.1) rest)
      else (later.0, ran w run ∷ later.1)

  -- The accounts after the pass, and how many were gated where no run raised.
  unfoldable pub expire_due :
      (ℕ → String)
      → (ℕ → String)
      → PasswordPolicy
      → ℕ
      → List UnitOfWork
      → Option ℕ × List UnitOfWork
  unfolding gate_all run_gated
  expire_due decimal iso policy now accounts =
      if not (is_some policy.expires_after_days)
      then (some 0, accounts)
      else (let marked = gate_all decimal iso policy now accounts in
          let (finished, after) = run_gated marked in
          (if finished then some (length (filter (λ r. r.0) marked)) else none, after))
