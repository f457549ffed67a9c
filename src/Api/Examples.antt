-- ===== src/Api/Examples.antt =====
-- Runs of the interface: three requests of two allowed ones, and a request that is sent twice.
use na_sso.Prelude.{String, ◌≡◌, refl, true, false, none, List, [], ◌∷◌, arith}
use na_sso.Api.Rate.{rate_limit, drop_old}
use na_sso.Api.Window.{answers, meant, answers-meant}
use na_sso.Api.Idempotency.{
  ApiIdempotencyRecord, Identity, Begun, failed, replayed, is_valid_key, find_record, new_record,
  begin_idempotent_request, finish_idempotent_request,
}
use na_sso.Api.Replay.{begin_idempotent_request-replayed}

-- The third request is early, the fourth one is not.
third_is_limited : answers 1 2 (10 ∷ 20 ∷ 30 ∷ 75 ∷ []) [] ≡ true ∷ true ∷ false ∷ true ∷ []
unfolding answers rate_limit drop_old
third_is_limited = refl

answers-meant_example :
    answers 1 2 (10 ∷ 20 ∷ 30 ∷ 75 ∷ []) [] ≡ meant 1 2 (10 ∷ 20 ∷ 30 ∷ 75 ∷ []) []
answers-meant_example =
    answers-meant 1 2 (10 ∷ 20 ∷ 30 ∷ 75 ∷ []) [] 0 (omega arith) tt tt
      (omega arith, (omega arith, (omega arith, (omega arith, tt))))

abbrev caller : Identity
caller = record {
  actor = "ann";
  method = "POST";
  path = "/api/v1/users";
  idempotency_key = 97 ∷ 97 ∷ 97 ∷ 97 ∷ 97 ∷ 97 ∷ 97 ∷ 97 ∷ [];
}

abbrev first_record : ApiIdempotencyRecord
first_record = new_record 24 100 "r1" caller "h"

abbrev repeated : String → List ApiIdempotencyRecord → Begun
repeated h l = (begin_idempotent_request 24 200 "r2" caller h l).0

begin_idempotent_request-replayed_example :
    let finished = finish_idempotent_request "r1" 201 "{}" none (first_record ∷ []) in
    (repeated "h" (first_record ∷ []) ≡ failed 409 "request_in_progress")
    × (repeated "other" (first_record ∷ []) ≡ failed 409 "idempotency_conflict")
    × (repeated "h" finished ≡ replayed 201 "{}")
    × (repeated "other" finished ≡ failed 409 "idempotency_conflict")
unfolding begin_idempotent_request is_valid_key find_record
begin_idempotent_request-replayed_example =
    begin_idempotent_request-replayed caller 24 100 "r1" "h" [] (first_record ∷ []) first_record 200
      "r2" "other" 201 "{}" none refl (omega arith) refl
