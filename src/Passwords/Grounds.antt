-- ===== src/Passwords/Grounds.antt =====
-- On what grounds a password is kept or changed.
use na_sso.Prelude.{
  ℕ, ◌<◌, String, ◌≡◌, refl, subst, true, false, not, ◌&&◌, Option, none, some, List, [], ◌∷◌,
  str_eq, arith, Bool-cases, inl, inr,
}
use na_sso.Outcome.{Outcome, returned, raised}
use na_sso.Models.{UnitOfWork}
use na_sso.Connectors.{is_expired}
use na_sso.Mfa.Rows.{Text}
use na_sso.Mfa.Totp.{same_codes}
use na_sso.Sync.Conclude.{World}
use na_sso.Sync.Handoff.{credential_handoff}
use na_sso.Passwords.{PasswordError}
use na_sso.Passwords.Valid.{IsSound, validate_password-IsSound}
use na_sso.Passwords.Action.{
  PasswordStore, PasswordReply, form_error, invalid, kept, changed, PasswordForm, PasswordWorld,
  keep_with, keep, change_with, change, decide, checked_decide, hand_over, complete_password_action,
  recent, acknowledgement_result, with_work, is_disabled_mode, reaches, mismatch,
}

module _ (x : World) (p : PasswordWorld) (f : PasswordForm) (s : PasswordStore) where
  -- The account proved the password it signs in with.
  pub record IsVerified (hash : String) : Type 0 where
    pub stored : s.work.user.password_hash ≡ some hash
    pub verified : p.texts.verify_password f.current_password hash ≡ true

  pub record MayKeep : Type 0 where
    pub lapsed : is_expired s.work.user.password_decision_kind ≡ true
    pub allowed : is_disabled_mode p.policy.expiry_acknowledgement_mode ≡ false
    pub below :
        (limit : ℕ)
        → p.policy.expiry_acknowledgement_limit ≡ some limit
        → s.work.user.password_keep_count < limit

  pub record MayChange (hash : String) : Type 0 where
    pub typed_twice :
        (plain : Text)
        → f.password_generated ≡ false
        → f.confirm_password ≡ some plain
        → same_codes f.new_password plain ≡ true
    pub handed_over : f.password_generated ≡ true → f.credential_handoff_confirmed ≡ true
    pub sound : IsSound p.texts p.policy (recent x p hash s.history) f.new_password

  -- What holds where a password was kept or changed.
  abbrev pub Grounds : PasswordReply → Type 0
  Grounds kept = (hash : String) × IsVerified hash × MayKeep
  Grounds changed = (hash : String) × IsVerified hash × MayChange hash
  Grounds _ = Unit {0}

  below-limit :
      (limit : Option ℕ) (count : ℕ)
      → reaches limit count ≡ false
      → (n : ℕ) → limit ≡ some n
      → count < n
  below-limit none count h n e = ground arith
  below-limit (some m) count h n e = ground arith

  keep_with-Grounds :
      (until : Option ℕ) (hash : String)
      → IsVerified hash
      → MayKeep
      → Grounds (keep_with x p until s).0
  keep_with-Grounds none hash v may = tt
  keep_with-Grounds (some t) hash v may = (hash, v, may)

  keep-Grounds :
      (hash : String)
      → IsVerified hash
      → is_expired s.work.user.password_decision_kind ≡ true
      → Grounds (keep x p s).0
  keep-Grounds hash v lapsed =
      elim (Bool-cases (is_disabled_mode p.policy.expiry_acknowledgement_mode)) [
        | inl e ↦ rw e tt
        | inr allowed ↦
            elim (Bool-cases
              (reaches p.policy.expiry_acknowledgement_limit s.work.user.password_keep_count)) [
                | inl e ↦ rw (allowed, e) tt
                | inr below ↦
                    rw (allowed, below)
                      (keep_with-Grounds (acknowledgement_result p.policy x.now) hash v (record {
                        lapsed = lapsed;
                        allowed = allowed;
                        below =
                            below-limit p.policy.expiry_acknowledgement_limit
                              s.work.user.password_keep_count below;
                      }))
              ]
      ]

  typed_twice-lem :
      (confirmed : Option Text)
      → (not f.password_generated && mismatch confirmed f.new_password) ≡ false
      → (plain : Text) → f.password_generated ≡ false
      → confirmed ≡ some plain
      → same_codes f.new_password plain ≡ true
  typed_twice-lem none h plain g e = cc
  typed_twice-lem (some typed) h plain g e =
      let same : typed ≡ plain = cc in
      subst (λ t. same_codes f.new_password t ≡ true) same (ground arith)

  change_with-Grounds :
      (errors : List PasswordError) (hash : String)
      → IsVerified hash
      → (errors ≡ [] → MayChange hash)
      → Grounds (change_with x p errors f.new_password hash s).0
  change_with-Grounds [] hash v may = (hash, v, may refl)
  change_with-Grounds (e ∷ errors) hash v may = tt

  change-Grounds : (hash : String) → IsVerified hash → Grounds (change x p f hash s).0
  change-Grounds hash v =
      elim (Bool-cases (f.password_generated && not f.credential_handoff_confirmed)) [
        | inl e ↦ rw e tt
        | inr given ↦
            elim (Bool-cases
              (not f.password_generated && mismatch f.confirm_password f.new_password)) [
                | inl e ↦ rw (given, e) tt
                | inr typed ↦
                    rw (given, typed)
                      (change_with-Grounds _ hash v (λ none_found. record {
                        typed_twice = typed_twice-lem f.confirm_password typed;
                        handed_over = λ generated. ground arith;
                        sound =
                            validate_password-IsSound p.texts p.policy _ _ _ _ _ f.new_password
                              none_found;
                      }))
              ]
      ]

  decide-Grounds : (hash : String) → IsVerified hash → Grounds (decide x p f hash s).0
  decide-Grounds hash v =
      elim (Bool-cases
        (str_eq f.choice "keep" && f.decision && is_expired s.work.user.password_decision_kind)) [
          | inl e ↦ rw e (keep-Grounds hash v (ground arith))
          | inr other ↦ elim (Bool-cases (str_eq f.choice "change")) [
            | inl e ↦ rw (other, e) (change-Grounds hash v)
            | inr e ↦ rw (other, e) tt
          ]
        ]

  checked-Grounds :
      (stored : Option String)
      → s.work.user.password_hash ≡ stored
      → Grounds (checked_decide x p stored f s).0
  checked-Grounds none e = tt
  checked-Grounds (some hash) e =
      elim (Bool-cases (p.texts.verify_password f.current_password hash)) [
        | inl verified ↦
            rw verified (decide-Grounds hash (record { stored = e; verified = verified }))
        | inr refused ↦ rw refused tt
      ]

  with_work-reply :
      (r reply : PasswordReply) (t s' : PasswordStore) (o : Outcome (Unit {0}) × UnitOfWork)
      → with_work x p r t o ≡ (returned reply, s')
      → r ≡ reply
  with_work-reply r reply t s' (returned done, w) e = cc
  with_work-reply r reply t s' (raised fault, w) e = cc

  hand_over-reply :
      (r : PasswordReply × PasswordStore) (reply : PasswordReply) (s' : PasswordStore)
      → hand_over x p f r ≡ (returned reply, s')
      → r.0 ≡ reply
  hand_over-reply (kept, t) reply s' e =
      with_work-reply kept reply t s'
        (credential_handoff x (p.encrypt_secret f.current_password) t.work) e
  hand_over-reply (changed, t) reply s' e =
      with_work-reply changed reply t s'
        (credential_handoff x (p.encrypt_secret f.new_password) t.work) e
  hand_over-reply (form_error m, t) reply s' e = cc
  hand_over-reply (invalid m, t) reply s' e = cc

  -- A password is kept or changed only for an account whose stored hash verifies the given current
  -- password. It is kept only when it expired, the policy allows keeping and the number of times it was
  -- kept is below the policy's limit. It is changed only when the new one is sound, where it was typed the
  -- two texts agree, and where it was generated the handoff was confirmed.
  pub complete_password_action-Grounds :
      (reply : PasswordReply) (s' : PasswordStore)
      → complete_password_action x p f s ≡ (returned reply, s')
      → Grounds reply
  unfolding complete_password_action
  complete_password_action-Grounds reply s' e =
      let r = checked_decide x p s.work.user.password_hash f s in
      subst Grounds (hand_over-reply r reply s' e) (checked-Grounds s.work.user.password_hash refl)
