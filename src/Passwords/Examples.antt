-- ===== src/Passwords/Examples.antt =====
-- Runs of the password form: a password in use is changed, and an expired one is kept.
use na_sso.Prelude.{
  ◌≡◌, refl, String, true, false, ◌&&◌, some, [], ◌∷◌, map, length, leb, ◌==◌, str_eq,
}
use na_sso.Lifecycle.Values.{SyncStateValue}
use na_sso.Models.{expired, is_root}
use na_sso.Samples.{work, calm, row}
use na_sso.Mfa.Rows.{Text}
use na_sso.Sync.Handoff.{credential_handoff}
use na_sso.Passwords.{
  grace, PasswordPolicy, Texts, validate_password, contains, starts_with, repeat, repeats,
  has_sequence, has_identity_term, distance,
}
use na_sso.Passwords.Action.{
  PasswordStore, kept, PasswordForm, PasswordWorld, acknowledgement_result, checked_decide, take,
  complete_password_action,
}
use na_sso.Passwords.Propagation.{complete_password_action-unsynced}
use na_sso.Passwords.Grounds.{Grounds, complete_password_action-Grounds}
use na_sso.Passwords.Expiry.{gate_all}
use na_sso.Passwords.Gate.{Settles, checked_decide-Settles}

abbrev old_password : Text
old_password = 111 ∷ 108 ∷ 100 ∷ 33 ∷ 33 ∷ []

abbrev new_password : Text
new_password = 78 ∷ 101 ∷ 119 ∷ 55 ∷ 57 ∷ 33 ∷ []

abbrev ascii : Texts
ascii = record {
  is_lower = λ c. leb 97 c && leb c 122;
  is_upper = λ c. leb 65 c && leb c 90;
  is_digit = λ c. leb 48 c && leb c 57;
  is_alphanumeric = λ c. leb 48 c && leb c 122;
  is_space = λ c. c == 32;
  lower = λ plain. plain;
  verify_password = λ plain hash. str_eq hash "hash" && length plain == 5;
}

abbrev strict : PasswordPolicy
strict = record {
  min_length = 6;
  max_length = 72;
  require_lowercase = true;
  require_uppercase = true;
  require_digit = true;
  require_symbol = true;
  max_repeated_characters = some 2;
  max_numeric_sequence = some 3;
  reject_identity_terms = true;
  min_identity_distance = 3;
  history_size = 4;
  expires_after_days = some 90;
  expiry_acknowledgement_mode = grace;
  expiry_acknowledgement_grace_days = 7;
  expiry_acknowledgement_limit = some 2;
}

abbrev world : PasswordWorld
world = record {
  texts = ascii;
  policy = strict;
  hash_password = λ plain. "hash-2";
  encrypt_secret = λ plain. "sealed-2";
  points = λ text. 97 ∷ 108 ∷ 105 ∷ 99 ∷ 101 ∷ [];
  acknowledgement_text = λ until count. "kept";
}

abbrev form : String → PasswordForm
form choice = record {
  choice = choice;
  current_password = old_password;
  new_password = new_password;
  confirm_password = some new_password;
  password_generated = false;
  credential_handoff_confirmed = false;
  decision = true;
}

abbrev in_step : PasswordStore
in_step = record { work = work (row "gitea" true SyncStateValue.ok ∷ []); history = [] }

abbrev lapsed : PasswordStore
lapsed = record in_step {
  work = record in_step.work {
    user = record in_step.work.user {
      password_decision_required = true;
      password_decision_kind = expired;
    };
  };
}

-- The new password has no errors, and the old one lacks two classes of characters.
validated :
    validate_password ascii strict [] [] [] (some old_password) ("hash" ∷ []) new_password ≡ []
unfolding validate_password contains starts_with repeat repeats has_sequence has_identity_term
    distance
validated = refl

abbrev after_change : PasswordStore
after_change = (complete_password_action calm world (form "change") in_step).1

complete_password_action-unsynced_example :
    (after_change.work.user.password_hash ≡ some "hash-2")
    × (after_change.work.user.sync_states ≡ in_step.work.user.sync_states)
    × (after_change.work.user.pending_secret ≡ some "sealed")
    × (after_change.work.operations ≡ [])
    × (after_change.work.attempts ≡ [])
unfolding complete_password_action credential_handoff is_root take validate_password contains
    starts_with repeat repeats has_sequence has_identity_term distance
complete_password_action-unsynced_example =
    complete_password_action-unsynced calm world (form "change") in_step after_change refl refl

abbrev after_keep : PasswordStore
after_keep = (complete_password_action calm world (form "keep") lapsed).1

complete_password_action-Grounds_example : Grounds calm world (form "keep") lapsed kept
unfolding complete_password_action credential_handoff is_root acknowledgement_result
complete_password_action-Grounds_example =
    complete_password_action-Grounds calm world (form "keep") lapsed kept after_keep refl

checked_decide-Settles_example :
    Settles calm world (form "keep") (checked_decide calm world (some "hash") (form "keep") lapsed)
checked_decide-Settles_example =
    checked_decide-Settles calm world (form "keep") (some "hash") lapsed

-- The account whose password lapsed is gated.
gated :
    map (λ r. r.0) (gate_all (λ n. "7") (λ n. "t") strict 9000000 (in_step.work ∷ [])) ≡ true ∷ []
unfolding gate_all is_root
gated = refl
