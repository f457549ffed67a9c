-- ===== src/Mfa/Digits.antt =====
-- The text of a one-time code: what is printed, and the bytes of the digest that it stands for.
use na_sso.Prelude.{
  ℕ, zero, suc, ◌+◌, ◌-◌, ◌*◌, ◌/◌, ◌%◌, ◌^◌, ◌≤◌, ◌<◌, ◌≡◌, refl, ◌∙◌, List, [], ◌∷◌, ap, All,
  length, arith,
}
use na_sso.Outcome.{returned}
use na_sso.Mfa.Totp.{last_byte, unpack_at, higher_digits, zero_padded, six_digits}

-- Six decimal digits, as code points.
abbrev pub IsCode : List ℕ → Type 0
IsCode code = (length code ≡ 6) × All (λ c. (48 ≤ c) × (c ≤ 57)) code

-- The number that a text of decimal digits stands for, after the digits read so far.
unfoldable pub read_decimal : ℕ → List ℕ → ℕ
read_decimal n [] = n
read_decimal n (c ∷ rest) = read_decimal (n * 10 + (c - 48)) rest

-- A byte of a digest by its place, and 0 behind its end.
unfoldable pub byte_at : ℕ → List ℕ → ℕ
byte_at n [] = 0
byte_at zero (b ∷ rest) = b
byte_at (suc n) (b ∷ rest) = byte_at n rest

-- The number of a digest of twenty bytes as RFC 4226 describes it: the low four bits of the last byte
-- tell the place of four bytes, which are read with the highest bit left out.
unfoldable pub truncated_number : List ℕ → ℕ
unfolding byte_at
truncated_number digest =
    let o = byte_at 19 digest % 16 in
    byte_at o digest % 128 * 2 ^ 24
    + byte_at (suc o) digest * 2 ^ 16
    + byte_at (suc (suc o)) digest * 2 ^ 8
    + byte_at (suc (suc (suc o))) digest

last_digit :
    (v : ℕ) (out : List ℕ) → read_decimal (v / 10) ((48 + v % 10) ∷ out) ≡ read_decimal v out
unfolding read_decimal
last_digit v out = ground arith

-- Fuel of the size of the number is enough.
read_decimal-higher_digits :
    (fuel v : ℕ) (out : List ℕ)
    → v ≤ fuel
    → read_decimal 0 (higher_digits fuel v out) ≡ read_decimal v out
unfolding higher_digits
read_decimal-higher_digits zero v out h = let none_left : v ≡ 0 = omega arith in rw none_left refl
read_decimal-higher_digits (suc fuel) v out h =
    ground (arith, last_digit v out, read_decimal-higher_digits fuel (v / 10) ((48 + v % 10) ∷ out))

read_decimal-zero_padded :
    (width v : ℕ) (out : List ℕ) → read_decimal 0 (zero_padded width v out) ≡ read_decimal v out
unfolding zero_padded
read_decimal-zero_padded zero v out = read_decimal-higher_digits v v out (omega arith)
read_decimal-zero_padded (suc width) v out =
    read_decimal-zero_padded width (v / 10) ((48 + v % 10) ∷ out) ∙ last_digit v out

-- The printed text stands for the number, however large it is.
pub read_decimal-six_digits : (v : ℕ) → read_decimal 0 (six_digits v) ≡ v
unfolding read_decimal
read_decimal-six_digits v = read_decimal-zero_padded 6 v []

-- A number below a million has six digits.
pub six_digits-IsCode : (v : ℕ) → v < 1000000 → IsCode (six_digits v)
unfolding zero_padded higher_digits
six_digits-IsCode v h =
    let none_left : v / 10 / 10 / 10 / 10 / 10 / 10 ≡ 0 = omega arith in
    rw none_left (refl, omega arith)

last_byte-byte_at : (b : ℕ) (l : List ℕ) → last_byte b l ≡ byte_at (length l) (b ∷ l)
unfolding last_byte byte_at
last_byte-byte_at b [] = refl
last_byte-byte_at b (c ∷ rest) = last_byte-byte_at c rest

pub last_byte-digest :
    (digest : List ℕ) → length digest ≡ 20 → last_byte 0 digest ≡ byte_at 19 digest
unfolding last_byte
last_byte-digest [] h = ground arith
last_byte-digest (b ∷ rest) h =
    let short : length rest ≡ 19 = ground arith in
    last_byte-byte_at b rest ∙ ap (λ n. byte_at n (b ∷ rest)) short

pub byte_at-byte : (n : ℕ) (digest : List ℕ) → All (λ b. b < 256) digest → byte_at n digest < 256
unfolding byte_at
byte_at-byte n [] h = omega arith
byte_at-byte zero (b ∷ rest) (h, hs) = h
byte_at-byte (suc n) (b ∷ rest) (h, hs) = byte_at-byte n rest hs

pub unpack_at-returned :
    (o : ℕ) (digest : List ℕ)
    → o + 4 ≤ length digest
    → unpack_at o digest
      ≡ returned (
          ((byte_at o digest * 256 + byte_at (suc o) digest) * 256 + byte_at (suc (suc o)) digest)
            * 256
          + byte_at (suc (suc (suc o))) digest)
unfolding unpack_at byte_at
unpack_at-returned zero (a ∷ b ∷ c ∷ d ∷ rest) h = refl
unpack_at-returned zero [] h = ground arith
unpack_at-returned zero (a ∷ []) h = ground arith
unpack_at-returned zero (a ∷ b ∷ []) h = ground arith
unpack_at-returned zero (a ∷ b ∷ c ∷ []) h = ground arith
unpack_at-returned (suc n) [] h = ground arith
unpack_at-returned (suc n) (a ∷ rest) h = unpack_at-returned n rest (omega arith)
