-- ===== src/Mfa/Totp.antt =====
-- na_sso/mfa.py: one-time codes by the clock. A text that a user sends is the list of its code points.
use na_sso.Prelude.{
  ℕ, zero, suc, ◌+◌, ◌-◌, ◌*◌, ◌/◌, ◌%◌, ◌^◌, String, Bool, true, false, ◌&&◌, not, Option, none,
  some, List, [], ◌∷◌, ltb, ◌==◌, all, filter, length, if◌then◌else◌,
}
use na_sso.Outcome.{Outcome, returned, raised, type_error, struct_error}

-- `digest[-1]`, of a digest that is not empty.
unfoldable pub last_byte : ℕ → List ℕ → ℕ
last_byte b [] = b
last_byte b (c ∷ rest) = last_byte c rest

-- `struct.unpack(">I", digest[offset:offset + 4])[0]`.
unfoldable pub unpack_at : ℕ → List ℕ → Outcome ℕ
unpack_at zero (a ∷ b ∷ c ∷ d ∷ rest) = returned (((a * 256 + b) * 256 + c) * 256 + d)
unpack_at zero _ = raised struct_error
unpack_at (suc n) [] = raised struct_error
unpack_at (suc n) (a ∷ rest) = unpack_at n rest

-- The decimal digits of a number, as code points, in front of those that are printed already; none of
-- zero. Fuel of the size of the number is enough.
unfoldable pub higher_digits : ℕ → ℕ → List ℕ → List ℕ
higher_digits zero v out = out
higher_digits (suc fuel) v out =
    let rest = higher_digits fuel (v / 10) ((48 + v % 10) ∷ out) in if v == 0 then out else rest

-- At least so many digits, with zeros in front.
unfoldable pub zero_padded : ℕ → ℕ → List ℕ → List ℕ
unfolding higher_digits
zero_padded zero v out = higher_digits v v out
zero_padded (suc width) v out = zero_padded width (v / 10) ((48 + v % 10) ∷ out)

-- `f"{value:06d}"`
abbrev pub six_digits : ℕ → List ℕ
six_digits v = zero_padded 6 v []

abbrev truncated : Outcome ℕ → Outcome (List ℕ)
truncated (returned n) = returned (six_digits (n % 2 ^ 31 % 1000000))
truncated (raised fault) = raised fault

-- The code that a digest stands for: `& 15` and `& 0x7FFFFFFF` keep the low 4 and 31 bits.
unfoldable pub code_of : List ℕ → Outcome (List ℕ)
unfolding last_byte unpack_at zero_padded
code_of digest = truncated (unpack_at (last_byte 0 digest % 16) digest)

abbrev pub is_ascii : ℕ → Bool
is_ascii c = ltb c 128

abbrev pub same_codes : List ℕ → List ℕ → Bool
same_codes [] [] = true
same_codes (a ∷ l) (b ∷ m) = a == b && same_codes l m
same_codes _ _ = false

-- `hmac.compare_digest` of two texts raises unless both are ASCII.
unfoldable pub compare_digest : List ℕ → List ℕ → Outcome Bool
compare_digest a b =
    if all is_ascii a && all is_ascii b then returned (same_codes a b) else raised type_error

-- The HMAC-SHA1 of a counter under a Base32 secret, `str.isdigit` on a character, and the clock.
module _ (hmac_sha1 : String → ℕ → List ℕ) (is_digit : ℕ → Bool) (clock : ℕ) where
  unfoldable pub totp : String → ℕ → Outcome (List ℕ)
  totp secret timestamp =
      code_of (hmac_sha1 secret ((if timestamp == 0 then clock else timestamp) / 30))

  abbrev pub matches : Outcome (List ℕ) → List ℕ → Outcome Bool
  matches (returned expected) code = compare_digest expected code
  matches (raised fault) code = raised fault

  abbrev pub settle_match : Outcome Bool → ℕ → Outcome (Option ℕ) → Outcome (Option ℕ)
  settle_match (returned true) time rest = returned (some (time / 30))
  settle_match (returned false) time rest = rest
  settle_match (raised fault) time rest = raised fault

  -- The loop over the candidate times.
  unfoldable pub first_match : String → List ℕ → List ℕ → Outcome (Option ℕ)
  first_match secret code [] = returned none
  first_match secret code (time ∷ rest) =
      settle_match (matches (totp secret time) code) time (first_match secret code rest)

  -- The counter that the code matches, one step of 30 seconds around the clock. The clock stands after
  -- the first half minute of 1970, so that the subtraction is exact.
  unfoldable pub matching_totp_counter : String → List ℕ → Outcome (Option ℕ)
  unfolding first_match
  matching_totp_counter secret code =
      let normalised = filter is_digit code in
      if not (length normalised == 6)
      then returned none
      else first_match secret normalised ((clock - 30) ∷ clock ∷ (clock + 30) ∷ [])
