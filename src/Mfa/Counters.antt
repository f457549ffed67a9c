-- ===== src/Mfa/Counters.antt =====
-- Replay of one-time codes: the counters that successive sign-ins accept.
use na_sso.Prelude.{
  ℕ, ℤ, ◌<ℤ◌, String, ◌≡◌, ◌≢◌, Bool, true, false, Option, none, some, List, [], ◌∷◌, if◌then◌else◌,
  arith,
}
use na_sso.Outcome.{Outcome, returned, raised}
use na_sso.Mfa.Rows.{Text, MfaStore, totp_secret_of}
use na_sso.Mfa.{
  MfaWorld, Method, by_totp, consume_recovery, accept_code, last_counter, by_match,
  consume_emergency, counter_for,
}

abbrev pub is_by_totp : Outcome (Option Method) → Bool
is_by_totp (returned (some by_totp)) = true
is_by_totp _ = false

-- The counters that one-time codes of successive sign-ins were accepted for, each with its own clock.
unfoldable pub accepted_counters : String → List (MfaWorld × Text) → MfaStore → List ℤ
accepted_counters role [] s = []
accepted_counters role ((x, code) ∷ rest) s =
    let (method, s') = accept_code x role code s in
    let later = accepted_counters role rest s' in
    if is_by_totp method then last_counter s'.row ∷ later else later

-- The list ascends strictly, from above the number.
abbrev pub IsAscending : ℤ → List ℤ → Type 0
IsAscending n [] = Unit
IsAscending n (c ∷ rest) = (n <ℤ c) × IsAscending c rest

consume_emergency-last :
    (x : MfaWorld) (role : String) (code : Text) (configured : Option Text) (s : MfaStore)
    → let (method, s') = consume_emergency x configured role code s in
      (method ≢ some by_totp) × (last_counter s'.row ≡ last_counter s.row)
consume_emergency-last x role code none s = ground arith
consume_emergency-last x role code (some configured) s = ground arith

consume_recovery-last :
    (x : MfaWorld) (role : String) (code : Text) (s : MfaStore)
    → let (method, s') = consume_recovery x role code s in
      (method ≢ some by_totp) × (last_counter s'.row ≡ last_counter s.row)
unfolding consume_recovery
consume_recovery-last x role code s =
    ground (arith, consume_emergency-last x role code x.root_recovery_code s)

by_match-last :
    (x : MfaWorld) (role : String) (code : Text) (found : Outcome (Option ℕ)) (s : MfaStore)
    → let (method, s') = by_match x found role code s in
      (is_by_totp method ≡ true → last_counter s.row <ℤ last_counter s'.row)
      × (is_by_totp method ≡ false → last_counter s'.row ≡ last_counter s.row)
by_match-last x role code (raised fault) s = ground arith
by_match-last x role code (returned none) s = ground (arith, consume_recovery-last x role code s)
by_match-last x role code (returned (some c)) s =
    ground (arith, consume_recovery-last x role code s)

-- Whatever codes are sent and whatever the clocks show, the counters of the accepted one-time codes
-- ascend strictly, from above the last one that is stored: none is accepted twice.
pub accepted_counters-IsAscending :
    (role : String) (tries : List (MfaWorld × Text)) (s : MfaStore)
    → IsAscending (last_counter s.row) (accepted_counters role tries s)
unfolding accepted_counters accept_code
accepted_counters-IsAscending role [] s = tt
accepted_counters-IsAscending role ((x, code) ∷ rest) s =
    let (method, s') = accept_code x role code s in
    ground (
      arith,
      by_match-last x role code (counter_for x (totp_secret_of s.row) code) s,
      accepted_counters-IsAscending role rest s',
    )
