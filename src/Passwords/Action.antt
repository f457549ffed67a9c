-- ===== src/Passwords/Action.antt =====
-- na_sso/auth.py: `_complete_password_action`, the decision on a password and its change.
use na_sso.Prelude.{
  ℕ, zero, suc, ◌+◌, ◌*◌, String, Bool, true, false, not, ◌&&◌, Option, none, some, List, [], ◌∷◌,
  ◌++◌, leb, if◌then◌else◌, str_eq,
}
use na_sso.Outcome.{Outcome, returned, raised}
use na_sso.Models.{settled, UnitOfWork}
use na_sso.Connectors.{is_expired}
use na_sso.Mfa.Rows.{Text}
use na_sso.Mfa.Totp.{same_codes}
use na_sso.Sync.Conclude.{World}
use na_sso.Sync.Handoff.{credential_handoff}
use na_sso.Passwords.{
  AcknowledgementMode, disabled, grace, renewal, PasswordPolicy, Texts, PasswordError,
  validate_password,
}

-- An account with the hashes of its former passwords, the newest first.
pub record PasswordStore : Type 0 where
  pub work : UnitOfWork
  pub history : List String

-- The form again with an error, or the page after a kept or a changed password.
pub data PasswordReply : Type 0 where
  form_error : String → PasswordReply
  invalid : List PasswordError → PasswordReply
  kept changed : PasswordReply

-- The answers of the form.
pub record PasswordForm : Type 0 where
  pub choice : String
  pub current_password : Text
  pub new_password : Text
  pub confirm_password : Option Text
  pub password_generated : Bool
  pub credential_handoff_confirmed : Bool
  pub decision : Bool

-- What libraries do with a password, and the texts of an account and of a time.
pub record PasswordWorld : Type 0 where
  pub texts : Texts
  pub policy : PasswordPolicy
  pub hash_password : Text → String
  pub encrypt_secret : Text → String
  pub points : String → Text
  pub acknowledgement_text : ℕ → ℕ → String

abbrev pub day : ℕ
day = 86400

-- When a kept password expires next, if the policy says so.
unfoldable pub acknowledgement_result : PasswordPolicy → ℕ → Option ℕ
acknowledgement_result policy now = elim policy.expiry_acknowledgement_mode [
  | grace ↦ some (now + policy.expiry_acknowledgement_grace_days * day)
  | renewal ↦ elim policy.expires_after_days [ none ↦ none | some days ↦ some (now + days * day) ]
  | disabled ↦ none
]

abbrev pub reaches : Option ℕ → ℕ → Bool
reaches none count = false
reaches (some limit) count = leb limit count

abbrev pub is_disabled_mode : AcknowledgementMode → Bool
is_disabled_mode disabled = true
is_disabled_mode _ = false

abbrev pub mismatch : Option Text → Text → Bool
mismatch none plain = false
mismatch (some confirmed) plain = not (same_codes plain confirmed)

unfoldable pub take : ℕ → List String → List String
take zero l = []
take (suc n) [] = []
take (suc n) (h ∷ rest) = h ∷ take n rest

abbrev noted : String → String → PasswordStore → PasswordStore
noted action detail s = record s {
  work = record s.work {
    audit =
        s.work.audit
        ++ record {
          actor = s.work.user.username;
          action = action;
          subject = s.work.user.username;
          detail = detail;
          operation_id = none;
        }
          ∷ [];
  };
}

module _ (x : World) (p : PasswordWorld) where
  abbrev pub acknowledged : ℕ → PasswordStore → PasswordStore
  acknowledged keep_until s =
      noted "password.keep_acknowledged"
        (p.acknowledgement_text keep_until (s.work.user.password_keep_count + 1))
        (record s {
          work = record s.work {
            user = record s.work.user {
              password_decision_required = false;
              password_decision_kind = settled;
              password_keep_until = some keep_until;
              password_keep_count = s.work.user.password_keep_count + 1;
            };
          };
        })

  abbrev pub keep_with : Option ℕ → PasswordStore → PasswordReply × PasswordStore
  keep_with none s = (
    form_error
        "The acknowledgement policy cannot calculate a new expiry. Change the password to continue.",
    s,
  )
  keep_with (some keep_until) s = (kept, acknowledged keep_until s)

  abbrev pub keep : PasswordStore → PasswordReply × PasswordStore
  keep s =
      if is_disabled_mode p.policy.expiry_acknowledgement_mode
      then (
        form_error "Keeping an expired password is disabled by policy. Change it to continue.",
        s,
      )
      else if reaches p.policy.expiry_acknowledgement_limit s.work.user.password_keep_count
      then (
        form_error "This password has reached its acknowledgement limit. Change it to continue.",
        s,
      )
      else keep_with (acknowledgement_result p.policy x.now) s

  -- The hashes that a new password is compared with.
  abbrev pub recent : String → List String → List String
  recent hash history = hash ∷ take p.policy.history_size history

  abbrev pub renewed : Text → String → PasswordStore → PasswordStore
  renewed new_password hash s = noted "password.changed" "" (record {
    history = hash ∷ s.history;
    work = record s.work {
      user = record s.work.user {
        password_hash = some (p.hash_password new_password);
        password_decision_required = false;
        password_decision_kind = settled;
        password_changed_at = some x.now;
        password_keep_until = none;
        password_keep_count = 0;
        session_version = s.work.user.session_version + 1;
      };
    };
  })

  abbrev pub change_with :
      List PasswordError → Text → String → PasswordStore → PasswordReply × PasswordStore
  change_with (e ∷ errors) new_password hash s = (invalid (e ∷ errors), s)
  change_with [] new_password hash s = (changed, renewed new_password hash s)

  abbrev pub change : PasswordForm → String → PasswordStore → PasswordReply × PasswordStore
  change f hash s =
      if f.password_generated && not f.credential_handoff_confirmed
      then (
        form_error
            "Generate the password again, save the full value, and confirm the handoff before changing it.",
        s,
      )
      else if not f.password_generated && mismatch f.confirm_password f.new_password
      then (form_error "Password confirmation does not match.", s)
      else change_with
          (validate_password p.texts p.policy (p.points s.work.user.username)
            (p.points s.work.user.email) (p.points s.work.user.display_name)
            (some f.current_password) (recent hash s.history) f.new_password)
          f.new_password hash s

  abbrev pub decide : PasswordForm → String → PasswordStore → PasswordReply × PasswordStore
  decide f hash s =
      if str_eq f.choice "keep" && f.decision && is_expired s.work.user.password_decision_kind
      then keep s
      else if str_eq f.choice "change"
      then change f hash s
      else (form_error "Choose keep or change.", s)

  abbrev pub checked_decide :
      Option String → PasswordForm → PasswordStore → PasswordReply × PasswordStore
  checked_decide none f s = (form_error "Invalid current password.", s)
  checked_decide (some hash) f s =
      if p.texts.verify_password f.current_password hash
      then decide f hash s
      else (form_error "Invalid current password.", s)

  abbrev pub with_work :
      PasswordReply
      → PasswordStore
      → Outcome (Unit {0}) × UnitOfWork
      → Outcome PasswordReply × PasswordStore
  with_work reply s (returned done, w) = (returned reply, record s { work = w })
  with_work reply s (raised fault, w) = (raised fault, record s { work = w })

  -- The password goes to the targets once the action is committed.
  abbrev pub hand_over :
      PasswordForm → PasswordReply × PasswordStore → Outcome PasswordReply × PasswordStore
  hand_over f (kept, s) =
      with_work kept s (credential_handoff x (p.encrypt_secret f.current_password) s.work)
  hand_over f (changed, s) =
      with_work changed s (credential_handoff x (p.encrypt_secret f.new_password) s.work)
  hand_over f (reply, s) = (returned reply, s)

  -- The account exists and is signed in.
  unfoldable pub complete_password_action :
      PasswordForm → PasswordStore → Outcome PasswordReply × PasswordStore
  complete_password_action f s = hand_over f (checked_decide s.work.user.password_hash f s)
