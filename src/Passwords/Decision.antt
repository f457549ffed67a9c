-- ===== src/Passwords/Decision.antt =====
-- The rule for what holds after the decision on a password, whatever the branch.
use na_sso.Prelude.{
  ℕ, String, ◌≡◌, refl, Bool, true, false, not, ◌&&◌, Option, none, some, List, if◌then◌else◌,
  str_eq,
}
use na_sso.Connectors.{is_expired}
use na_sso.Sync.Conclude.{World}
use na_sso.Passwords.{PasswordError}
use na_sso.Passwords.Action.{
  PasswordStore, PasswordReply, form_error, PasswordForm, PasswordWorld, keep_with, keep,
  change_with, change, decide, checked_decide, acknowledgement_result, is_disabled_mode, reaches,
  mismatch,
}

module _ (x : World) (p : PasswordWorld) (f : PasswordForm) (s : PasswordStore)
    (P : PasswordReply × PasswordStore → Type 0) (refused : (e : String) → P (form_error e, s))
    (keeping : (until : Option ℕ)
      → acknowledgement_result p.policy x.now ≡ until
      → P (keep_with x p until s))
    (changing : (errors : List PasswordError) (hash : String)
      → P (change_with x p errors f.new_password hash s)) where
  either :
      (test : Bool) (r r' : PasswordReply × PasswordStore) → P r → P r' → P (if test then r else r')
  either true r r' h h' = h
  either false r r' h h' = h'

  keep-rule : P (keep x p s)
  keep-rule = either (is_disabled_mode p.policy.expiry_acknowledgement_mode) _ _ (refused _) (
      either (reaches p.policy.expiry_acknowledgement_limit s.work.user.password_keep_count) _ _
        (refused _) (keeping (acknowledgement_result p.policy x.now) refl))

  change-rule : (hash : String) → P (change x p f hash s)
  change-rule hash =
      either (f.password_generated && not f.credential_handoff_confirmed) _ _ (refused _) (
        either (not f.password_generated && mismatch f.confirm_password f.new_password) _ _
          (refused _) (changing _ hash))

  decide-rule : (hash : String) → P (decide x p f hash s)
  decide-rule hash =
      either (str_eq f.choice "keep" && f.decision && is_expired s.work.user.password_decision_kind)
        _ _ keep-rule (either (str_eq f.choice "change") _ _ (change-rule hash) (refused _))

  pub checked_decide-rule : (stored : Option String) → P (checked_decide x p stored f s)
  checked_decide-rule none = refused _
  checked_decide-rule (some hash) =
      either (p.texts.verify_password f.current_password hash) _ _ (decide-rule hash) (refused _)
