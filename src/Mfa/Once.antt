-- ===== src/Mfa/Once.antt =====
-- Replay: what a code that was accepted once does to the next ones.
use na_sso.Prelude.{
  ◌+◌, ◌≤◌, String, ◌≡◌, ◌≢◌, refl, sym, ap, ◌∙◌, inl, inr, false, Option, none, some, List, [],
  ◌∷◌, length, All, str_eq, arith, eq_iff, eq_refl, Option-cases,
}
use na_sso.Mfa.Rows.{Text, MfaStore, hashes_of}
use na_sso.Mfa.{
  MfaWorld, Method, by_totp, by_recovery_code, by_emergency_code, recovery_hash, emergency_hash,
  take_hash, consume_recovery, consume_emergency, settle_recovery,
}

-- No two hashes of the list are equal.
abbrev pub IsDistinct : List String → Type 0
IsDistinct [] = Unit
IsDistinct (h ∷ rest) = All (λ k. str_eq h k ≡ false) rest × IsDistinct rest

absent-take_hash :
    (candidate : String) (hashes : List String)
    → All (λ k. str_eq candidate k ≡ false) hashes
    → take_hash candidate hashes ≡ none
unfolding take_hash
absent-take_hash candidate [] h = refl
absent-take_hash candidate (k ∷ rest) (h, hs) = ground (arith, absent-take_hash candidate rest hs)

-- A hash that is taken from a list without repetitions is not in what is left.
take_hash-once :
    (candidate : String) (hashes left : List String)
    → IsDistinct hashes
    → take_hash candidate hashes ≡ some left
    → (take_hash candidate left ≡ none) × (length hashes ≡ length left + 1)
unfolding take_hash
take_hash-once candidate [] left d e = ground arith
take_hash-once candidate (k ∷ rest) left (d, ds) e =
    elim (Option-cases (take_hash candidate rest)) [
      | inl gone ↦ ground (arith, absent-take_hash candidate rest, eq_iff candidate k)
      | inr (l, found) ↦ ground (
        arith,
        absent-take_hash candidate rest,
        eq_iff candidate k,
        take_hash-once candidate rest l ds found,
      )
    ]

module _ (x : MfaWorld) (role : String) (code : Text) where
  emergency-once :
      (configured : Option Text) (s s' : MfaStore)
      → consume_emergency x configured role code s ≡ (some by_emergency_code, s')
      → ((consume_emergency x configured role code s').0 ≢ some by_emergency_code)
        × (hashes_of s'.row ≡ hashes_of s.row)
  emergency-once none s s' e = ground arith
  emergency-once (some configured) s s' e = ground (arith, eq_refl (emergency_hash x configured))

  emergency-method :
      (configured : Option Text) (s : MfaStore)
      → (consume_emergency x configured role code s).0 ≢ some by_recovery_code
  emergency-method none s e = ground arith
  emergency-method (some configured) s e = ground arith

  absent :
      (method : Method) (s s' : MfaStore)
      → take_hash (recovery_hash x code) (hashes_of s.row) ≡ none
      → consume_emergency x x.root_recovery_code role code s ≡ (some method, s')
      → ((consume_recovery x role code s').0 ≢ some method)
        × (length (hashes_of s.row) ≤ length (hashes_of s'.row) + 1)
  unfolding consume_recovery
  absent by_totp s s' gone e = ground (arith, emergency-method x.root_recovery_code s)
  absent by_recovery_code s s' gone e = ground (arith, emergency-method x.root_recovery_code s)
  absent by_emergency_code s s' gone e =
      let (once, kept) = emergency-once x.root_recovery_code s s' e in
      rw kept (rw gone (once, omega arith))

  taken :
      (left : List String) (method : Method) (s s' : MfaStore)
      → let hash = recovery_hash x code in
        (take_hash hash left ≡ none) × (length (hashes_of s.row) ≡ length left + 1)
        → settle_recovery x (some left) role code s ≡ (some method, s')
        → ((consume_recovery x role code s').0 ≢ some method)
          × (length (hashes_of s.row) ≤ length (hashes_of s'.row) + 1)
  unfolding consume_recovery
  taken left method s s' (gone, shorter) e =
      let kept : hashes_of s'.row ≡ left = ground arith in
      let same : by_recovery_code ≡ method = ground arith in
      rw kept (
        rw gone (
          λ again. emergency-method x.root_recovery_code s' (again ∙ ap some (sym same)),
          omega arith,
        ))

  -- A recovery or emergency code that was accepted is not accepted once more by the same method, where
  -- the stored hashes are distinct; at most one hash is taken away.
  pub consume_recovery-once :
      (method : Method) (s s' : MfaStore)
      → IsDistinct (hashes_of s.row)
      → consume_recovery x role code s ≡ (some method, s')
      → ((consume_recovery x role code s').0 ≢ some method)
        × (length (hashes_of s.row) ≤ length (hashes_of s'.row) + 1)
  unfolding consume_recovery
  consume_recovery-once method s s' d e =
      let hash = recovery_hash x code in
      elim (Option-cases (take_hash hash (hashes_of s.row))) [
        | inl gone ↦ absent method s s' gone (rw gone at e)
        | inr (left, found) ↦
            taken left method s s' (take_hash-once hash (hashes_of s.row) left d found)
              (rw found at e)
      ]
