-- ===== src/Mfa/Steps.antt =====
-- One-time codes: their form, and which codes the clock accepts.
use na_sso.Prelude.{
  ℕ, suc, ◌+◌, ◌-◌, ◌*◌, ◌/◌, ◌%◌, ◌^◌, ◌≤◌, ◌<◌, String, ◌≡◌, ◌⊎◌, inl, inr, ◌∙◌, sym, subst, refl,
  ap, Bool, true, false, Option, some, List, [], ◌∷◌, ◌==◌, all, All, filter, length, if◌then◌else◌,
  arith,
}
use na_sso.Outcome.{Outcome, returned, raised, type_error}
use na_sso.Mfa.Digits.{
  IsCode, read_decimal, byte_at, truncated_number, read_decimal-six_digits, six_digits-IsCode,
  last_byte-digest, byte_at-byte, unpack_at-returned,
}
use na_sso.Mfa.Totp.{
  code_of, six_digits, same_codes, is_ascii, compare_digest, totp, first_match, settle_match,
  matches, matching_totp_counter,
}

-- The digits of a code for the number of which `code_of` keeps 31 bits.
code_of-printed :
    (digest : List ℕ)
    → length digest ≡ 20
    → let o = byte_at 19 digest % 16 in
      code_of digest
      ≡ returned (
          six_digits (
            (((byte_at o digest * 256 + byte_at (suc o) digest) * 256
                  + byte_at (suc (suc o)) digest)
                * 256
              + byte_at (suc (suc (suc o))) digest)
            % 2 ^ 31
            % 1000000))
unfolding code_of
code_of-printed digest h =
    rw (last_byte-digest digest h)
      (rw (unpack_at-returned (byte_at 19 digest % 16) digest (omega arith)) refl)

without_top_bit :
    (a b c d : ℕ)
    → b < 256
    → c < 256
    → d < 256
    → (((a * 256 + b) * 256 + c) * 256 + d) % 2 ^ 31 ≡ a % 128 * 2 ^ 24 + b * 2 ^ 16 + c * 2 ^ 8 + d
without_top_bit a b c d h k l = omega arith

-- A digest of twenty bytes, which is what SHA-1 gives, always stands for a code: six decimal digits that
-- read as a number are what RFC 4226 takes from the digest (the four bytes from the place that the low
-- four bits of the last byte tell, without the highest bit), modulo a million.
pub code_of-IsCode :
    (digest : List ℕ)
    → length digest ≡ 20
    → All (λ b. b < 256) digest
    → (code : List ℕ) × (code_of digest ≡ returned code)
      × IsCode code
      × (read_decimal 0 code ≡ truncated_number digest % 1000000)
unfolding truncated_number
code_of-IsCode digest h bytes =
    let o = byte_at 19 digest % 16 in
    let number =
      without_top_bit (byte_at o digest) (byte_at (suc o) digest) (byte_at (suc (suc o)) digest)
        (byte_at (suc (suc (suc o))) digest) (byte_at-byte (suc o) digest bytes)
        (byte_at-byte (suc (suc o)) digest bytes) (byte_at-byte (suc (suc (suc o))) digest bytes) in
    (
      _,
      code_of-printed digest h,
      six_digits-IsCode _ (omega arith),
      read_decimal-six_digits _ ∙ ap (λ n. n % 1000000) number,
    )

same_codes_eq : (a b : List ℕ) → same_codes a b ≡ true → a ≡ b
same_codes_eq [] [] h = refl
same_codes_eq (a ∷ l) (b ∷ m) h = ground (arith, same_codes_eq l m)
same_codes_eq [] (b ∷ m) h = ground arith
same_codes_eq (a ∷ l) [] h = ground arith

module _ (hmac_sha1 : String → ℕ → List ℕ) (is_digit : ℕ → Bool) (clock : ℕ) where
  match_step :
      (o : Outcome (List ℕ)) (code : List ℕ) (t : ℕ) (rest : Outcome (Option ℕ)) (c : ℕ)
      → settle_match hmac_sha1 is_digit clock (matches hmac_sha1 is_digit clock o code) t rest
        ≡ returned (some c)
      → ((o ≡ returned code) × (t / 30 ≡ c)) ⊎ (rest ≡ returned (some c))
  unfolding compare_digest
  match_step (raised fault) code t rest c h = ground arith
  match_step (returned expected) code t rest c h = ground (arith, same_codes_eq expected code)

  totp-later :
      (secret : String) (t : ℕ)
      → 0 < t
      → totp hmac_sha1 is_digit clock secret t ≡ code_of (hmac_sha1 secret (t / 30))
  unfolding totp
  totp-later secret t h = ground arith

  first_match-code :
      (secret : String) (code times : List ℕ) (P : ℕ → Type 0)
      → All (λ t. (0 < t) × P (t / 30)) times
      → (c : ℕ) → first_match hmac_sha1 is_digit clock secret code times ≡ returned (some c)
      → (code_of (hmac_sha1 secret c) ≡ returned code) × P c
  unfolding first_match
  first_match-code secret code [] P h c e = ground arith
  first_match-code secret code (t ∷ rest) P ((pos, near), hs) c e =
      elim (match_step (totp hmac_sha1 is_digit clock secret t) code t
        (first_match hmac_sha1 is_digit clock secret code rest) c e) [
          | inl (same, step) ↦
              subst (λ c. (code_of (hmac_sha1 secret c) ≡ returned code) × P c) step
                (sym (totp-later secret t pos) ∙ same, near)
          | inr later ↦ first_match-code secret code rest P hs c later
        ]

  abbrev IsNear : ℕ → Type 0
  IsNear c = (clock / 30 ≤ c + 1) × (c ≤ clock / 30 + 1)

  IsNear-now : (t : ℕ) → 0 < t → clock ≤ t + 30 → t ≤ clock + 30 → (0 < t) × IsNear (t / 30)
  IsNear-now t p a b = (p, (omega arith, omega arith))

  -- Once the clock is past the first half minute, the counter that a code matches is at most one step
  -- away from the clock's, and the digits of the code are the code of that counter.
  pub matching_totp_counter-code :
      (secret : String) (code : List ℕ) (c : ℕ)
      → 30 < clock
      → matching_totp_counter hmac_sha1 is_digit clock secret code ≡ returned (some c)
      → (code_of (hmac_sha1 secret c) ≡ returned (filter is_digit code))
        × (clock / 30 ≤ c + 1)
        × (c ≤ clock / 30 + 1)
  unfolding matching_totp_counter
  matching_totp_counter-code secret code c late e =
      let tried : All (λ t. (0 < t) × IsNear (t / 30)) ((clock - 30) ∷ clock ∷ (clock + 30) ∷ []) =
        (
          IsNear-now (clock - 30) (omega arith) (omega arith) (omega arith),
          (
            IsNear-now clock (omega arith) (omega arith) (omega arith),
            (IsNear-now (clock + 30) (omega arith) (omega arith) (omega arith), tt),
          ),
        ) in
      let (same, close) =
        first_match-code secret (filter is_digit code) ((clock - 30) ∷ clock ∷ (clock + 30) ∷ [])
          IsNear tried c (ground arith) in
      (same, close.0, close.1)

  not_ascii :
      (o : Outcome (List ℕ)) (code : List ℕ) (t : ℕ) (rest : Outcome (Option ℕ)) (given : List ℕ)
      → o ≡ returned given
      → all is_ascii code ≡ false
      → settle_match hmac_sha1 is_digit clock (matches hmac_sha1 is_digit clock o code) t rest
        ≡ raised type_error
  unfolding compare_digest
  not_ascii (returned expected) code t rest given e h = ground arith
  not_ascii (raised fault) code t rest given e h = ground arith

  -- A code of six digits by `str.isdigit` of which one is not ASCII is not refused: the comparison
  -- raises, whatever the secret, where the digests have the twenty bytes of SHA-1.
  pub matching_totp_counter-raised :
      (secret : String) (code : List ℕ)
      → ((c : ℕ) → length (hmac_sha1 secret c) ≡ 20)
      → length (filter is_digit code) ≡ 6
      → all is_ascii (filter is_digit code) ≡ false
      → matching_totp_counter hmac_sha1 is_digit clock secret code ≡ raised type_error
  unfolding matching_totp_counter first_match totp
  matching_totp_counter-raised secret code sha six strange =
      let at = (if clock - 30 == 0 then clock else clock - 30) / 30 in
      let e = code_of-printed (hmac_sha1 secret at) (sha at) in
      let first =
        not_ascii (totp hmac_sha1 is_digit clock secret (clock - 30)) (filter is_digit code)
          (clock - 30)
          (first_match hmac_sha1 is_digit clock secret (filter is_digit code)
            (clock ∷ (clock + 30) ∷ []))
          _ e strange in
      ground arith
