-- ===== src/Api/Replay.antt =====
-- What a repeated request gets: the stored response, or a conflict.
use na_sso.Prelude.{
  ℕ, ◌+◌, ◌*◌, ◌<◌, String, ◌≡◌, refl, ◌∙◌, Bool, true, false, Option, none, some, List, [], ◌∷◌,
  ◌++◌, filter, str_eq, arith, eq_refl, Option-cases, inl, inr,
}
use na_sso.Mfa.Totp.{same_codes}
use na_sso.Api.Idempotency.{
  ApiIdempotencyRecord, Identity, Begun, started, failed, replayed, is_valid_key, is_of,
  find_record, is_live, reply_to, new_record, begin_idempotent_request, answered,
  finish_idempotent_request,
}

same_codes_refl : (l : List ℕ) → same_codes l l ≡ true
same_codes_refl [] = refl
same_codes_refl (c ∷ rest) = ground (arith, same_codes_refl rest)

module _ (who : Identity) where
  find_record-kept :
      (p : ApiIdempotencyRecord → Bool) (l : List ApiIdempotencyRecord) (r : ApiIdempotencyRecord)
      → find_record who l ≡ none
      → is_of who r ≡ true
      → p r ≡ true
      → find_record who (filter p (l ++ r ∷ [])) ≡ some r
  unfolding find_record
  find_record-kept p [] r none_yet own kept = ground arith
  find_record-kept p (a ∷ rest) r none_yet own kept = ground (arith, find_record-kept p rest r)

  find_record-answered :
      (p : ApiIdempotencyRecord → Bool) (id : String) (status : ℕ) (body : String)
      (operation_id : Option String) (l : List ApiIdempotencyRecord) (r : ApiIdempotencyRecord)
      → find_record who l ≡ none
      → is_of who r ≡ true
      → str_eq r.id id ≡ true
      → p (answered status body operation_id r) ≡ true
      → find_record who
          (filter p (finish_idempotent_request id status body operation_id (l ++ r ∷ [])))
        ≡ some (answered status body operation_id r)
  unfolding find_record finish_idempotent_request
  find_record-answered p id status body operation_id [] r none_yet own same kept = ground arith
  find_record-answered p id status body operation_id (a ∷ rest) r none_yet own same kept =
      ground (arith, find_record-answered p id status body operation_id rest r)

module _ (who : Identity) (retention_hours now : ℕ) (new_id hash : String) where
  new_record-own : is_of who (new_record retention_hours now new_id who hash) ≡ true
  new_record-own = ground (
    arith,
    eq_refl who.actor,
    eq_refl who.method,
    eq_refl who.path,
    same_codes_refl who.idempotency_key,
  )

  -- A request is started only under a valid key that no live record of the sender has.
  begun-cases :
      (records s : List ApiIdempotencyRecord) (r : ApiIdempotencyRecord)
      → begin_idempotent_request retention_hours now new_id who hash records ≡ (started r, s)
      → (is_valid_key who.idempotency_key ≡ true)
        × (find_record who (filter (is_live now) records) ≡ none)
        × (s ≡ filter (is_live now) records ++ new_record retention_hours now new_id who hash ∷ [])
  unfolding begin_idempotent_request
  begun-cases records s r e = elim (Option-cases (find_record who (filter (is_live now) records))) [
    | inl gone ↦ ground arith
    | inr (old, found) ↦ ground arith
  ]

  again :
      (later : ℕ) (other hash' : String) (s : List ApiIdempotencyRecord) (r : ApiIdempotencyRecord)
      → is_valid_key who.idempotency_key ≡ true
      → find_record who (filter (is_live later) s) ≡ some r
      → (begin_idempotent_request retention_hours later other who hash' s).0 ≡ reply_to hash' r
  unfolding begin_idempotent_request
  again later other hash' s r valid found = rw valid (rw found refl)

  -- After a request was started, the same key of the same sender with the same method and path, before
  -- the record expires: with another request, by its fingerprint, it gets a conflict, whether or not the
  -- response is stored; with the same one it gets a conflict as long as the response is not stored, and
  -- then the stored response.
  pub begin_idempotent_request-replayed :
      (records s : List ApiIdempotencyRecord) (r : ApiIdempotencyRecord) (later : ℕ)
      (other hash' : String) (status : ℕ) (body : String) (operation_id : Option String)
      → begin_idempotent_request retention_hours now new_id who hash records ≡ (started r, s)
      → later < now + retention_hours * 3600
      → str_eq hash hash' ≡ false
      → let repeat : String → List ApiIdempotencyRecord → Begun =
          λ h l. (begin_idempotent_request retention_hours later other who h l).0 in
        let s' = finish_idempotent_request new_id status body operation_id s in
        (repeat hash s ≡ failed 409 "request_in_progress")
        × (repeat hash' s ≡ failed 409 "idempotency_conflict")
        × (repeat hash s' ≡ replayed status body)
        × (repeat hash' s' ≡ failed 409 "idempotency_conflict")
  begin_idempotent_request-replayed records s r later other hash' status body operation_id e soon
        differs =
      let (valid, gone, grown) = begun-cases records s r e in
      let fresh = new_record retention_hours now new_id who hash in
      let live = filter (is_live now) records in
      let kept : find_record who (filter (is_live later) s) ≡ some fresh =
        rw grown
          (find_record-kept who (is_live later) live fresh gone new_record-own (ground arith)) in
      let stored : find_record who
            (filter (is_live later) (finish_idempotent_request new_id status body operation_id s))
          ≡ some (answered status body operation_id fresh) =
        rw grown (
          find_record-answered who (is_live later) new_id status body operation_id live fresh gone
            new_record-own (eq_refl new_id) (ground arith)) in
      let finished = finish_idempotent_request new_id status body operation_id s in
      (
        again later other hash s fresh valid kept ∙ ground (arith, eq_refl hash),
        again later other hash' s fresh valid kept ∙ ground arith,
        again later other hash finished (answered status body operation_id fresh) valid stored
            ∙ ground (arith, eq_refl hash),
        again later other hash' finished (answered status body operation_id fresh) valid stored
            ∙ ground arith,
      )
