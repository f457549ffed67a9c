-- ===== src/Passwords/Valid.antt =====
-- What a password that passes the validation is like.
use na_sso.Prelude.{
  ℕ, suc, ◌≤◌, String, ◌≡◌, refl, subst, Bool, true, false, Option, none, some, List, [], ◌∷◌, any,
  All, length, ◌==◌, arith, Bool-cases, inl, inr,
}
use na_sso.Mfa.Rows.{Text}
use na_sso.Passwords.{
  PasswordPolicy, PasswordError, Texts, starts_with, contains, repeat, repeats, collect, checks,
  over, validate_password,
}

-- A text that contains another one contains its first character.
contains_head :
    (p : ℕ → Bool) (text part : Text) (c : ℕ)
    → any p text ≡ false
    → contains text (c ∷ part) ≡ true
    → p c ≡ false
unfolding contains starts_with
contains_head p [] part c h e = ground arith
contains_head p (b ∷ text) part c h e = elim (Bool-cases (c == b)) [
  | inl same ↦ let at_head : c ≡ b = ground arith in rw at_head (ground arith)
  | inr other ↦ contains_head p text part c (ground arith) (ground arith)
]

repeats-none :
    (limit : ℕ) (plain : Text) (c : ℕ)
    → repeats limit plain ≡ false
    → contains plain (repeat (suc limit) c) ≡ false
unfolding repeats repeat
repeats-none limit plain c h = elim (Bool-cases (contains plain (c ∷ repeat limit c))) [
  | inl found ↦
      contains_head (λ d. contains plain (repeat (suc limit) d)) plain (repeat limit c) c h found
  | inr absent ↦ absent
]

any-All : (p : String → Bool) (xs : List String) → any p xs ≡ false → All (λ x. p x ≡ false) xs
any-All p [] h = tt
any-All p (x ∷ xs) h = (ground arith, any-All p xs (ground arith))

collect-All : (l : List (Bool × PasswordError)) → collect l ≡ [] → All (λ c. c.0 ≡ false) l
collect-All [] h = tt
collect-All ((true, e) ∷ rest) h = ground arith
collect-All ((false, e) ∷ rest) h = (refl, collect-All rest h)

over_none :
    (limit : Option ℕ) (test : ℕ → Bool)
    → over limit test ≡ false
    → (n : ℕ) → limit ≡ some n
    → test n ≡ false
over_none none test h n e = ground arith
over_none (some m) test h n e =
    let same : m ≡ n = ground arith in subst (λ k. test k ≡ false) same h

-- A password that the validation lets through has a length within the policy, repeats no character more
-- often in a row than the policy allows, and is none of the passwords whose hashes were given.
pub record IsSound (t : Texts) (policy : PasswordPolicy) (history : List String) (plain : Text)
    : Type 0 where
  pub long_enough : policy.min_length ≤ length plain
  pub short_enough : length plain ≤ policy.max_length
  pub varied :
      (limit : ℕ) (c : ℕ)
      → policy.max_repeated_characters ≡ some limit
      → contains plain (repeat (suc limit) c) ≡ false
  pub fresh : All (λ hash. t.verify_password plain hash ≡ false) history

-- A password without errors is sound: its length is within the bounds of the policy, no character stands
-- in it more often in a row than the policy allows, and it matches none of the given hashes.
pub validate_password-IsSound :
    (t : Texts) (policy : PasswordPolicy) (username email display_name : Text)
    (old_password : Option Text) (history : List String) (plain : Text)
    → validate_password t policy username email display_name old_password history plain ≡ []
    → IsSound t policy history plain
unfolding validate_password
validate_password-IsSound t policy username email display_name old_password history plain h =
    let passed =
      collect-All (checks t policy username email display_name old_password history plain) h in
    let later = passed.1.1.1.1.1.1 in
    record {
      long_enough = ground (arith, passed.0);
      short_enough = ground (arith, passed.1.0);
      varied = λ limit c e.
          repeats-none limit plain c
            (over_none policy.max_repeated_characters (λ n. repeats n plain) later.0 limit e);
      fresh = any-All (t.verify_password plain) history later.1.1.1.1.0;
    }
