-- ===== src/Passwords/Gate.antt =====
-- An accepted decision lasts: the pass over expired passwords leaves the account alone.
use na_sso.Prelude.{
  ℕ, ◌+◌, ◌*◌, ◌<◌, String, ◌≡◌, refl, Bool, true, false, ◌||◌, Option, none, some, List, [], ◌∷◌,
  if◌then◌else◌, arith,
}
use na_sso.Models.{ManagedUser, is_root, is_temporary}
use na_sso.Sync.Conclude.{World}
use na_sso.Passwords.{PasswordError}
use na_sso.Passwords.Action.{
  PasswordStore, PasswordReply, kept, changed, PasswordForm, PasswordWorld, keep_with, change_with,
  checked_decide, renewed, acknowledged, acknowledgement_result, day,
}
use na_sso.Passwords.Decision.{checked_decide-rule}
use na_sso.Passwords.Expiry.{is_due, expiry_of, later_of, aged, is_past}

module _ (x : World) (p : PasswordWorld) (f : PasswordForm) where
  -- The times before which an accepted decision lasts.
  abbrev pub Lasts : PasswordReply → ℕ → Type 0
  Lasts kept t = (until : ℕ) × (acknowledgement_result p.policy x.now ≡ some until) × (t < until)
  Lasts changed t = (days : ℕ) → p.policy.expires_after_days ≡ some days → t < x.now + days * day
  Lasts _ t = ⊥

  pub record Settles (r : PasswordReply × PasswordStore) : Type 0 where
    pub not_due : (t : ℕ) → Lasts r.0 t → is_due p.policy t r.1.work.user ≡ false

  unless_past :
      (exempt : Bool) (t : ℕ) (expiry : Option ℕ)
      → is_past t expiry ≡ false
      → is_past t (if exempt then none else expiry) ≡ false
  unless_past true t expiry h = refl
  unless_past false t expiry h = h

  later_past :
      (keep_until t : ℕ) (expiry : Option ℕ)
      → t < keep_until
      → is_past t (later_of (some keep_until) expiry) ≡ false
  later_past keep_until t none h = ground arith
  later_past keep_until t (some e) h = ground arith

  keep_past :
      (keep_until t : ℕ) (changed_at : Option ℕ)
      → t < keep_until
      → is_past t (expiry_of p.policy (some keep_until) changed_at) ≡ false
  keep_past keep_until t none h = refl
  keep_past keep_until t (some c) h = later_past keep_until t (aged p.policy.expires_after_days c) h

  aged_past :
      (days : Option ℕ) (t : ℕ)
      → ((n : ℕ) → days ≡ some n → t < x.now + n * day)
      → is_past t (aged days x.now) ≡ false
  aged_past none t h = refl
  aged_past (some n) t h = let still = h n refl in ground arith

  not_past :
      (t : ℕ) (user : ManagedUser)
      → is_past t (expiry_of p.policy user.password_keep_until user.password_changed_at) ≡ false
      → is_due p.policy t user ≡ false
  unfolding is_due
  not_past t user h =
      let later = unless_past (is_root user || is_temporary user.password_decision_kind) t _ h in
      ground arith

  keep-Settles :
      (until : Option ℕ) (s : PasswordStore)
      → acknowledgement_result p.policy x.now ≡ until
      → Settles (keep_with x p until s)
  keep-Settles none s e = record { not_due = λ t h. elim h [ ] }
  keep-Settles (some u) s e = record {
    not_due = λ t (until, same, before).
        let before' : t < u = ground arith in
        not_past t (acknowledged x p u s).work.user
          (keep_past u t s.work.user.password_changed_at before');
  }

  change-Settles :
      (errors : List PasswordError) (hash : String) (s : PasswordStore)
      → Settles (change_with x p errors f.new_password hash s)
  change-Settles [] hash s = record {
    not_due = λ t h.
        not_past t (renewed x p f.new_password hash s).work.user
          (aged_past p.policy.expires_after_days t h);
  }
  change-Settles (e ∷ errors) hash s = record { not_due = λ t h. elim h [ ] }

  -- Once the expired password was kept or a new one was taken, the pass over expired passwords does not
  -- gate the account again at any time before the acknowledged time, or before the new password has
  -- the age at which the policy lets it expire.
  pub checked_decide-Settles :
      (stored : Option String) (s : PasswordStore) → Settles (checked_decide x p stored f s)
  checked_decide-Settles stored s =
      checked_decide-rule x p f s Settles (λ e. record { not_due = λ t h. elim h [ ] })
        (λ until e. keep-Settles until s e) (λ errors hash. change-Settles errors hash s) stored
