-- ===== src/Mfa/Examples.antt =====
-- Runs of the second factors: an authenticator whose codes are all 000000, and an operator's rows.
use na_sso.Prelude.{
  ℕ, pos, ◌≤◌, ◌<◌, ◌+◌, ◌/◌, ◌%◌, ◌≡◌, ◌≢◌, inr, refl, Bool, true, false, ◌&&◌, none, some, List,
  [], ◌∷◌, filter, length, ltb, leb, arith,
}
use na_sso.Outcome.{returned, raised, type_error}
use na_sso.Mfa.Digits.{IsCode, read_decimal, truncated_number}
use na_sso.Mfa.Totp.{
  higher_digits, zero_padded, six_digits, code_of, totp, compare_digest, matching_totp_counter,
}
use na_sso.Mfa.Steps.{code_of-IsCode, matching_totp_counter-code, matching_totp_counter-raised}
use na_sso.Mfa.Rows.{Text, MfaStore, Account, hashes_of, method_count}
use na_sso.Mfa.{MfaWorld, by_recovery_code, consume_recovery, recovery_hash, take_hash}
use na_sso.Mfa.Once.{consume_recovery-once}
use na_sso.Mfa.Counters.{accepted_counters, IsAscending, accepted_counters-IsAscending}
use na_sso.Mfa.Backing.{revoking_totp, change, IsBacked, KeepsFactor, change-IsBacked}

abbrev pub zeros : List ℕ
zeros = 0 ∷ 0 ∷ 0 ∷ 0 ∷ 0 ∷ 0 ∷ 0 ∷ 0 ∷ 0 ∷ 0 ∷ 0 ∷ 0 ∷ 0 ∷ 0 ∷ 0 ∷ 0 ∷ 0 ∷ 0 ∷ 0 ∷ 0 ∷ []

abbrev pub zero_code : Text
zero_code = 48 ∷ 48 ∷ 48 ∷ 48 ∷ 48 ∷ 48 ∷ []

-- Digits of ASCII, and the Arabic-Indic ones.
abbrev pub some_digits : ℕ → Bool
some_digits c = leb 48 c && ltb c 58

abbrev wide_digits : ℕ → Bool
wide_digits c = leb 1632 c && ltb c 1642

abbrev arabic_code : Text
arabic_code = 1632 ∷ 1632 ∷ 1632 ∷ 1632 ∷ 1632 ∷ 1632 ∷ []

abbrev pub at_noon : MfaWorld
at_noon = record {
  required = true;
  reauthentication_minutes = 10;
  clock = 1000;
  is_digit = some_digits;
  upper = λ t. t;
  hmac_sha1 = λ s c. zeros;
  hmac_sha256 = λ t. "a";
  sha256 = λ t. "root";
  encrypt_secret = λ s. s;
  decrypt_secret = λ s. s;
  root_recovery_code = none;
  new_codes = zero_code ∷ [];
  decimal = λ n. "1";
}

abbrev pub held : MfaStore
held = record {
  row = some record {
    totp_secret = some "S";
    totp_last_counter = pos 0;
    recovery_code_hashes = "a" ∷ "b" ∷ [];
    emergency_code_used_hash = none;
  };
  credentials = [];
  audit = [];
}

abbrev after_recovery : MfaStore
after_recovery = record held {
  row = some record {
    totp_secret = some "S";
    totp_last_counter = pos 0;
    recovery_code_hashes = "b" ∷ [];
    emergency_code_used_hash = none;
  };
}

-- The digest of the example in RFC 4226, whose code is 872921.
abbrev rfc_digest : List ℕ
rfc_digest =
    31 ∷ 134 ∷ 152 ∷ 105 ∷ 14 ∷ 2 ∷ 202 ∷ 22 ∷ 97 ∷ 133 ∷ 80 ∷ 239 ∷ 127 ∷ 25 ∷ 218 ∷ 142 ∷ 148 ∷ 91
    ∷ 85 ∷ 90 ∷ []

rfc_code : code_of rfc_digest ≡ returned (56 ∷ 55 ∷ 50 ∷ 57 ∷ 50 ∷ 49 ∷ [])
unfolding code_of
rfc_code = refl

-- A number of more digits is printed whole.
seven_digits : six_digits 1000042 ≡ 49 ∷ 48 ∷ 48 ∷ 48 ∷ 48 ∷ 52 ∷ 50 ∷ []
unfolding zero_padded higher_digits
seven_digits = refl

code_of-IsCode_example :
    (code : List ℕ) × (code_of rfc_digest ≡ returned code)
    × IsCode code
    × (read_decimal 0 code ≡ truncated_number rfc_digest % 1000000)
code_of-IsCode_example = code_of-IsCode rfc_digest refl (omega arith)

matching_totp_counter-code_example :
    (code_of zeros ≡ returned (filter some_digits zero_code))
    × (1000 / 30 ≤ 32 + 1)
    × (32 ≤ 1000 / 30 + 1)
unfolding matching_totp_counter totp code_of compare_digest
matching_totp_counter-code_example =
    matching_totp_counter-code (λ s c. zeros) some_digits 1000 "S" zero_code 32 (omega arith) refl

matching_totp_counter-raised_example :
    matching_totp_counter (λ s c. zeros) wide_digits 1000 "S" arabic_code ≡ raised type_error
matching_totp_counter-raised_example =
    matching_totp_counter-raised (λ s c. zeros) wide_digits 1000 "S" arabic_code (λ c. refl) refl
      refl

consume_recovery-once_example :
    ((consume_recovery at_noon "auditor" zero_code after_recovery).0 ≢ some by_recovery_code)
    × (length (hashes_of held.row) ≤ length (hashes_of after_recovery.row) + 1)
unfolding consume_recovery take_hash recovery_hash
consume_recovery-once_example =
    consume_recovery-once at_noon "auditor" zero_code by_recovery_code held after_recovery
      ((refl, tt), (tt, tt)) refl

accepted_counters-IsAscending_example :
    IsAscending
      (pos 0)
      (accepted_counters "auditor" ((at_noon, zero_code) ∷ (at_noon, zero_code) ∷ []) held)
accepted_counters-IsAscending_example =
    accepted_counters-IsAscending "auditor" ((at_noon, zero_code) ∷ (at_noon, zero_code) ∷ []) held

abbrev auditor : Account
auditor = record {
  id = 7;
  username = "ann";
  role = "auditor";
  session_version = 1;
  mfa_verified = true;
  authenticated_at = 900;
  restricted = false;
}

held_factor : 0 < method_count held
unfolding method_count
held_factor = omega arith

change-IsBacked_example :
    IsBacked (change at_noon revoking_totp (some auditor) held)
    × KeepsFactor at_noon held (change at_noon revoking_totp (some auditor) held)
change-IsBacked_example =
    change-IsBacked at_noon held revoking_totp (some auditor) (inr held_factor)
