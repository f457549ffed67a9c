-- ===== src/Passwords/Propagation.antt =====
-- What a changed password does to the targets.
use na_sso.Prelude.{
  ℕ, String, ◌≡◌, refl, sym, ap, subst, ◌∙◌, false, Option, none, some, List, [], ◌∷◌, any, arith,
}
use na_sso.Outcome.{Outcome, returned}
use na_sso.Models.{UnitOfWork}
use na_sso.Sync.Conclude.{World}
use na_sso.Sync.Handoff.{is_waiting_row, credential_handoff}
use na_sso.Passwords.Decision.{checked_decide-rule}
use na_sso.Passwords.{PasswordError}
use na_sso.Passwords.Action.{
  PasswordStore, PasswordReply, form_error, invalid, kept, changed, PasswordForm, PasswordWorld,
  keep_with, change_with, checked_decide, hand_over, complete_password_action,
}

-- Without a row that waits for a password the handoff does nothing.
handoff_idle :
    (x : World) (secret : String) (w : UnitOfWork)
    → any is_waiting_row w.user.sync_states ≡ false
    → credential_handoff x secret w ≡ (returned tt, w)
unfolding credential_handoff
handoff_idle x secret w idle = ground arith

module _ (x : World) (p : PasswordWorld) (f : PasswordForm) where
  -- Every step before the handoff leaves the rows of the targets and the stored password alone.
  record Keeps (s : PasswordStore) (r : PasswordReply × PasswordStore) : Type 0 where
    rows : r.1.work.user.sync_states ≡ s.work.user.sync_states
    secret : r.1.work.user.pending_secret ≡ s.work.user.pending_secret
    operations : r.1.work.operations ≡ s.work.operations
    attempts : r.1.work.attempts ≡ s.work.attempts
    stored : r.0 ≡ changed → r.1.work.user.password_hash ≡ some (p.hash_password f.new_password)

  keep-Keeps : (until : Option ℕ) (s : PasswordStore) → Keeps s (keep_with x p until s)
  keep-Keeps none s = ground arith
  keep-Keeps (some t) s = ground arith

  change-Keeps :
      (errors : List PasswordError) (hash : String) (s : PasswordStore)
      → Keeps s (change_with x p errors f.new_password hash s)
  change-Keeps [] hash s = ground arith
  change-Keeps (e ∷ errors) hash s = ground arith

  refused-Keeps : (s : PasswordStore) (e : String) → Keeps s (form_error e, s)
  refused-Keeps s e = ground arith

  checked-Keeps :
      (stored : Option String) (s : PasswordStore) → Keeps s (checked_decide x p stored f s)
  checked-Keeps stored s =
      checked_decide-rule x p f s (Keeps s) (refused-Keeps s) (λ until e. keep-Keeps until s)
        (λ errors hash. change-Keeps errors hash s) stored

  hand_over_idle :
      (r : PasswordReply × PasswordStore)
      → any is_waiting_row r.1.work.user.sync_states ≡ false
      → hand_over x p f r ≡ (returned r.0, r.1)
  hand_over_idle (kept, s) idle =
      rw (handoff_idle x (p.encrypt_secret f.current_password) s.work idle) refl
  hand_over_idle (changed, s) idle =
      rw (handoff_idle x (p.encrypt_secret f.new_password) s.work idle) refl
  hand_over_idle (form_error e, s) idle = refl
  hand_over_idle (invalid e, s) idle = refl

  settled_reply :
      (r : PasswordReply × PasswordStore) (s s' : PasswordStore)
      → Keeps s r
      → ◌≡◌ {A = Outcome PasswordReply × PasswordStore} (returned r.0, r.1) (returned changed, s')
      → Keeps s (changed, s')
  settled_reply (changed, t) s s' h e = subst (λ u. Keeps s (changed, u)) (ap (λ q. q.1) e) h
  settled_reply (kept, t) s s' h e = ground arith
  settled_reply (form_error m, t) s s' h e = ground arith
  settled_reply (invalid m, t) s s' h e = ground arith

  -- Where no target of the account waits for a password (each one is in step, say), a change of the
  -- password that is accepted reaches no target: the new hash is stored, and the rows of the targets,
  -- the stored password, the operations and the attempts are as they were.
  pub complete_password_action-unsynced :
      (s s' : PasswordStore)
      → any is_waiting_row s.work.user.sync_states ≡ false
      → complete_password_action x p f s ≡ (returned changed, s')
      → (s'.work.user.password_hash ≡ some (p.hash_password f.new_password))
        × (s'.work.user.sync_states ≡ s.work.user.sync_states)
        × (s'.work.user.pending_secret ≡ s.work.user.pending_secret)
        × (s'.work.operations ≡ s.work.operations)
        × (s'.work.attempts ≡ s.work.attempts)
  unfolding complete_password_action
  complete_password_action-unsynced s s' idle e =
      let r = checked_decide x p s.work.user.password_hash f s in
      let keeps = checked-Keeps s.work.user.password_hash s in
      let still : any is_waiting_row r.1.work.user.sync_states ≡ false =
        ap (any is_waiting_row) keeps.rows ∙ idle in
      let after = settled_reply r s s' keeps (sym (hand_over_idle r still) ∙ e) in
      (after.stored refl, after.rows, after.secret, after.operations, after.attempts)
