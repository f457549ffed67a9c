-- ===== src/Api/Idempotency.antt =====
-- na_sso/api_contract.py: requests that carry an idempotency key. The fingerprint of a request is what
-- SHA-256 makes of its canonical JSON.
use na_sso.Prelude.{
  ℕ, ◌+◌, ◌*◌, String, Bool, not, ◌&&◌, ◌||◌, Option, none, some, List, [], ◌∷◌, ◌++◌, all, filter,
  length, ltb, leb, ◌==◌, if◌then◌else◌, str_eq,
}
use na_sso.Mfa.Rows.{Text}
use na_sso.Mfa.Totp.{same_codes}

pub record ApiIdempotencyRecord : Type 0 where
  pub id : String
  pub actor : String
  pub method : String
  pub path : String
  pub idempotency_key : Text
  pub request_hash : String
  pub response_status : Option ℕ
  pub response_body : Option String
  pub operation_id : Option String
  pub expires_at : ℕ

-- Who sends what to which address under which key.
pub record Identity : Type 0 where
  pub actor : String
  pub method : String
  pub path : String
  pub idempotency_key : Text

-- A new record, an error with its status and code, or a stored response.
pub data Begun : Type 0 where
  started : ApiIdempotencyRecord → Begun
  failed replayed : ℕ → String → Begun

abbrev is_key_character : ℕ → Bool
is_key_character c =
    leb 65 c && leb c 90
    || leb 97 c && leb c 122
    || leb 48 c && leb c 58
    || c == 46
    || c == 95
    || c == 45

-- `[A-Za-z0-9._:-]{8,128}`
unfoldable pub is_valid_key : Text → Bool
is_valid_key key = leb 8 (length key) && leb (length key) 128 && all is_key_character key

abbrev pub is_of : Identity → ApiIdempotencyRecord → Bool
is_of who r =
    str_eq r.actor who.actor
    && str_eq r.method who.method
    && str_eq r.path who.path
    && same_codes r.idempotency_key who.idempotency_key

unfoldable pub find_record : Identity → List ApiIdempotencyRecord → Option ApiIdempotencyRecord
find_record who [] = none
find_record who (r ∷ rest) =
    let later = find_record who rest in if is_of who r then some r else later

abbrev pub is_live : ℕ → ApiIdempotencyRecord → Bool
is_live now r = ltb now r.expires_at

abbrev pub stored_reply : Option ℕ → Option String → Begun
stored_reply (some status) (some body) = replayed status body
stored_reply _ _ = failed 409 "request_in_progress"

abbrev pub reply_to : String → ApiIdempotencyRecord → Begun
reply_to hash r =
    if not (str_eq r.request_hash hash)
    then failed 409 "idempotency_conflict"
    else stored_reply r.response_status r.response_body

module _ (retention_hours now : ℕ) (new_id : String) where
  abbrev pub new_record : Identity → String → ApiIdempotencyRecord
  new_record who hash = record {
    id = new_id;
    actor = who.actor;
    method = who.method;
    path = who.path;
    idempotency_key = who.idempotency_key;
    request_hash = hash;
    response_status = none;
    response_body = none;
    operation_id = none;
    expires_at = now + retention_hours * 3600;
  }

  -- The removal of expired records is committed with a new record only.
  abbrev pub begin_with :
      Option ApiIdempotencyRecord
      → Identity
      → String
      → List ApiIdempotencyRecord
      → Begun × List ApiIdempotencyRecord
  begin_with (some existing) who hash records = (reply_to hash existing, records)
  begin_with none who hash records =
      (started (new_record who hash), filter (is_live now) records ++ new_record who hash ∷ [])

  unfoldable pub begin_idempotent_request :
      Identity → String → List ApiIdempotencyRecord → Begun × List ApiIdempotencyRecord
  begin_idempotent_request who hash records =
      if not (is_valid_key who.idempotency_key)
      then (failed 422 "invalid_idempotency_key", records)
      else begin_with (find_record who (filter (is_live now) records)) who hash records

abbrev pub answered : ℕ → String → Option String → ApiIdempotencyRecord → ApiIdempotencyRecord
answered status body operation_id r = record r {
  response_status = some status;
  response_body = some body;
  operation_id = operation_id;
}

unfoldable pub finish_idempotent_request :
    String → ℕ → String → Option String → List ApiIdempotencyRecord → List ApiIdempotencyRecord
finish_idempotent_request id status body operation_id [] = []
finish_idempotent_request id status body operation_id (r ∷ rest) =
    (if str_eq r.id id then answered status body operation_id r else r)
    ∷ finish_idempotent_request id status body operation_id rest
