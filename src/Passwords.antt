-- ===== src/Passwords.antt =====
-- na_sso/security.py: `validate_password`. A password is the list of its code points; what Unicode says
-- of a character, and bcrypt, are parameters.
pub mod Valid
pub mod Action
pub mod Propagation
pub mod Grounds
pub mod Expiry
pub mod Gate
pub mod Decision
mod Examples
use na_sso.Prelude.{
  ℕ, zero, suc, ◌+◌, ◌-◌, String, Bool, true, false, not, ◌&&◌, ◌||◌, Option, none, some, List, [],
  ◌∷◌, ◌++◌, any, map, length, ltb, leb, ◌==◌, if◌then◌else◌,
}
use na_sso.Mfa.Rows.{Text}

pub data AcknowledgementMode : Type 0 where
  disabled grace renewal : AcknowledgementMode

-- `file.password_policy` of the settings.
pub record PasswordPolicy : Type 0 where
  pub min_length : ℕ
  pub max_length : ℕ
  pub require_lowercase : Bool
  pub require_uppercase : Bool
  pub require_digit : Bool
  pub require_symbol : Bool
  pub max_repeated_characters : Option ℕ
  pub max_numeric_sequence : Option ℕ
  pub reject_identity_terms : Bool
  pub min_identity_distance : ℕ
  pub history_size : ℕ
  pub expires_after_days : Option ℕ
  pub expiry_acknowledgement_mode : AcknowledgementMode
  pub expiry_acknowledgement_grace_days : ℕ
  pub expiry_acknowledgement_limit : Option ℕ

-- `str` on characters and texts, and bcrypt.
pub record Texts : Type 0 where
  pub is_lower : ℕ → Bool
  pub is_upper : ℕ → Bool
  pub is_digit : ℕ → Bool
  pub is_alphanumeric : ℕ → Bool
  pub is_space : ℕ → Bool
  pub lower : Text → Text
  pub verify_password : Text → String → Bool

-- The messages of the validation, in the order of the checks.
pub data PasswordError : Type 0 where
  too_short too_long no_lowercase no_uppercase no_digit no_symbol : PasswordError
  repeated numeric_sequence identity_term too_similar used_recently : PasswordError

unfoldable pub starts_with : Text → Text → Bool
starts_with [] text = true
starts_with (a ∷ part) [] = false
starts_with (a ∷ part) (b ∷ text) = a == b && starts_with part text

-- `part in text`
unfoldable pub contains : Text → Text → Bool
contains [] part = starts_with part []
contains (b ∷ text) part = starts_with part (b ∷ text) || contains text part

-- `char * count`
unfoldable pub repeat : ℕ → ℕ → Text
repeat zero c = []
repeat (suc n) c = c ∷ repeat n c

unfoldable pub repeats : ℕ → Text → Bool
repeats limit plain = any (λ c. contains plain (repeat (suc limit) c)) plain

-- The digits from `first` on, and backwards down to it.
ascending : ℕ → ℕ → Text
ascending first zero = []
ascending first (suc n) = first ∷ ascending (suc first) n

descending : ℕ → ℕ → Text
descending first zero = []
descending first (suc n) = (first + n) ∷ descending first n

has_run : ℕ → ℕ → Text → Bool
has_run size zero lowered = false
has_run size (suc starts) lowered =
    contains lowered (ascending (48 + starts) size)
    || contains lowered (descending (48 + starts) size)
    || has_run size starts lowered

-- `range(limit + 1, 11)`, of which `rounds` are left.
sequence_from : ℕ → ℕ → Text → Bool
sequence_from size zero lowered = false
sequence_from size (suc rounds) lowered =
    has_run size (11 - size) lowered || sequence_from (suc size) rounds lowered

unfoldable pub has_sequence : ℕ → Text → Bool
unfolding sequence_from has_run ascending descending
has_sequence limit lowered = sequence_from (limit + 1) (10 - limit) lowered

-- `email.partition("@")[0]`
before_at : Text → Text
before_at [] = []
before_at (c ∷ rest) = let more = before_at rest in if c == 64 then [] else c ∷ more

abbrev extended : ℕ → List Text → List Text
extended c [] = (c ∷ []) ∷ []
extended c (word ∷ words) = (c ∷ word) ∷ words

-- `text.split()`, from the end: the words so far, and whether the next character belongs to the first.
split_words : (ℕ → Bool) → Text → List Text × Bool
split_words is_space [] = ([], false)
split_words is_space (c ∷ rest) =
    let (words, open_word) = split_words is_space rest in
    if is_space c
    then (words, false)
    else ((if open_word then extended c words else (c ∷ []) ∷ words), true)

-- The errors whose tests hold, in order.
abbrev pub collect : List (Bool × PasswordError) → List PasswordError
collect [] = []
collect ((failed, e) ∷ rest) = if failed then e ∷ collect rest else collect rest

abbrev pub over : Option ℕ → (ℕ → Bool) → Bool
over none test = false
over (some limit) test = test limit

module _ (t : Texts) where
  unfoldable pub has_identity_term : Text → Text → Text → Text → Bool
  unfolding before_at split_words
  has_identity_term username email display_name plain =
      let terms =
        t.lower username
        ∷ t.lower (before_at email)
        ∷ map t.lower (split_words t.is_space display_name).0 in
      any (λ term. leb 3 (length term) && contains (t.lower plain) term) terms

  -- The places at which two texts differ, and the difference of their lengths.
  unfoldable pub distance : Text → Text → ℕ
  distance [] other = length other
  distance (a ∷ plain) [] = suc (length plain)
  distance (a ∷ plain) (b ∷ other) =
      let later = distance plain other in if a == b then later else suc later

  abbrev pub too_close : ℕ → Option Text → Text → Bool
  too_close needed none plain = false
  too_close needed (some []) plain = false
  too_close needed (some (c ∷ old)) plain =
      not (needed == 0) && ltb (distance plain (c ∷ old)) needed

  abbrev pub checks :
      PasswordPolicy
      → Text
      → Text
      → Text
      → Option Text
      → List String
      → Text
      → List (Bool × PasswordError)
  checks policy username email display_name old_password history plain =
      (ltb (length plain) policy.min_length, too_short)
      ∷ (ltb policy.max_length (length plain), too_long)
      ∷ (policy.require_lowercase && not (any t.is_lower plain), no_lowercase)
      ∷ (policy.require_uppercase && not (any t.is_upper plain), no_uppercase)
      ∷ (policy.require_digit && not (any t.is_digit plain), no_digit)
      ∷ (policy.require_symbol && not (any (λ c. not (t.is_alphanumeric c)) plain), no_symbol)
      ∷ (over policy.max_repeated_characters (λ limit. repeats limit plain), repeated)
      ∷ (
        over policy.max_numeric_sequence (λ limit. has_sequence limit (t.lower plain)),
        numeric_sequence,
      )
      ∷ (
        policy.reject_identity_terms && has_identity_term username email display_name plain,
        identity_term,
      )
      ∷ (too_close policy.min_identity_distance old_password plain, too_similar)
      ∷ (any (t.verify_password plain) history, used_recently)
      ∷ []

  -- The account's name, address and display name, the old password if it is known, and the hashes of
  -- the passwords before.
  unfoldable pub validate_password :
      PasswordPolicy → Text → Text → Text → Option Text → List String → Text → List PasswordError
  validate_password policy username email display_name old_password history plain =
      collect (checks policy username email display_name old_password history plain)
