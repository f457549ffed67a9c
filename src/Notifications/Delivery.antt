-- ===== src/Notifications/Delivery.antt =====
-- na_sso/notifications.py: `_retry_at`, `_deliver_email` and `deliver_due_once`.
use na_sso.Prelude.{
  ℕ, zero, suc, ◌+◌, ◌-◌, ◌*◌, ◌^◌, min, String, Bool, true, false, ◌&&◌, Option, none, some, List,
  [], ◌∷◌, ◌++◌, filter, leb, ltb, str_append, if◌then◌else◌,
}
use na_sso.Models.{AuditEvent}
use na_sso.Notifications.{
  retrying, delivered, failed, disabled, Channel, webhook, email, WebhookDelivery, WebhookEndpoint,
  NotificationPolicy, NotificationStore, endpoint_active, find_endpoint, find_delivery,
  modify_delivery, is_open, is_on,
}
use na_sso.Notifications.Queue.{take_text}

-- What a POST to an endpoint gives: a status, an error that httpx declares as HTTPError, or another one.
pub data Posted : Type 0 where
  status : ℕ → Posted
  http_error : String → Posted
  other_error : Posted

-- `succeeded` and `failure`
pub data Attempt : Type 0 where
  success : Attempt
  failure : String → Attempt

-- `_deliver_email` catches what sending raises; `sent` is the name of that error, if there is one.
pub record DeliveryWorld : Type 0 where
  pub policy : NotificationPolicy
  pub now : ℕ
  pub posted : WebhookEndpoint → WebhookDelivery → Posted
  pub sent : WebhookDelivery → Option String
  pub in_order : List WebhookDelivery → List WebhookDelivery
  pub decimal : ℕ → String

unfoldable pub retry_at : NotificationPolicy → ℕ → ℕ → ℕ
retry_at policy now attempt_count =
    now + min (policy.retry_base_seconds * 2 ^ (attempt_count - 1)) policy.retry_max_seconds

-- A destination that is off or gone.
abbrev pub switched_off : WebhookDelivery → WebhookDelivery
switched_off d = record d {
  status = disabled;
  next_attempt_at = none;
  last_error = "destination disabled or no longer configured";
}

abbrev event_and_id : WebhookDelivery → String
event_and_id d = str_append "event=" (str_append d.event_type (str_append "; delivery=" d.id))

abbrev report : String → String → String → String → List AuditEvent
report actor action subject detail =
    record {
      actor = actor;
      action = action;
      subject = subject;
      detail = detail;
      operation_id = none;
    }
    ∷ []

abbrev pub write : WebhookDelivery → List AuditEvent → NotificationStore → NotificationStore
write d rows s = record s {
  deliveries = modify_delivery d.id (λ old. d) s.deliveries;
  audit = s.audit ++ rows;
}

abbrev pub sent_result : Option String → Option String → Attempt
sent_result none error = failure "ValueError"
sent_result (some recipient) none = success
sent_result (some recipient) (some name) = failure name

abbrev text_or_empty : Option String → String
text_or_empty none = ""
text_or_empty (some t) = t

abbrev pub next_turn :
    (NotificationStore → Bool × NotificationStore)
    → NotificationStore
    → Option NotificationStore
    → Bool × NotificationStore
next_turn rest s none = (false, s)
next_turn rest s (some s') = rest s'

unfoldable pub take_ids : ℕ → List WebhookDelivery → List String
take_ids zero l = []
take_ids (suc n) [] = []
take_ids (suc n) (d ∷ rest) = d.id ∷ take_ids n rest

module _ (x : DeliveryWorld) where
  -- The row after one attempt.
  unfoldable pub attempted : Attempt → WebhookDelivery → WebhookDelivery
  unfolding retry_at take_text
  attempted success d = record d {
    attempt_count = d.attempt_count + 1;
    status = delivered;
    delivered_at = some x.now;
    next_attempt_at = none;
    last_error = "";
  }
  attempted (failure name) d =
      if leb x.policy.max_attempts (d.attempt_count + 1)
      then record d {
        attempt_count = d.attempt_count + 1;
        status = failed;
        next_attempt_at = none;
        last_error = take_text 300 name;
      }
      else record d {
        attempt_count = d.attempt_count + 1;
        status = retrying;
        next_attempt_at = some (retry_at x.policy x.now (d.attempt_count + 1));
        last_error = take_text 300 name;
      }

  -- The audit rows of an attempt, by the channel's name and its subject.
  unfoldable pub reported : String → String → Attempt → WebhookDelivery → List AuditEvent
  unfolding take_text
  reported channel subject success d =
      report (str_append channel "-worker") (str_append channel ".delivered") subject
        (str_append (event_and_id d) (str_append "; attempt=" (x.decimal (d.attempt_count + 1))))
  reported channel subject (failure name) d =
      if leb x.policy.max_attempts (d.attempt_count + 1)
      then report (str_append channel "-worker") (str_append channel ".failed") subject (
          str_append (event_and_id d) (
            str_append "; attempts=" (
              str_append (x.decimal (d.attempt_count + 1))
                (str_append "; error=" (take_text 80 name)))))
      else []

  abbrev pub attempt :
      String → String → Attempt → WebhookDelivery → NotificationStore → NotificationStore
  attempt channel subject result d s =
      write (attempted result d) (reported channel subject result d) s

  unfoldable pub deliver_email : WebhookDelivery → NotificationStore → NotificationStore
  unfolding attempted reported
  deliver_email d s =
      if is_on x.policy.email_channel
      then attempt "email" (text_or_empty d.recipient) (sent_result d.recipient (x.sent d)) d s
      else write (switched_off d) [] s

  -- The row committed, or the error that leaves the run.
  abbrev pub post_result :
      WebhookEndpoint → Posted → WebhookDelivery → NotificationStore → Option NotificationStore
  post_result endpoint (status code) d s = some (
      attempt "webhook" endpoint.id
        (if leb 200 code && ltb code 300
          then success
          else failure (str_append "HTTP " (x.decimal code)))
        d s)
  post_result endpoint (http_error name) d s =
      some (attempt "webhook" endpoint.id (failure name) d s)
  post_result endpoint other_error d s = none

  abbrev pub deliver_webhook :
      Option WebhookEndpoint → WebhookDelivery → NotificationStore → Option NotificationStore
  deliver_webhook none d s = some (write (switched_off d) [] s)
  deliver_webhook (some endpoint) d s =
      if endpoint_active s.states endpoint
      then post_result endpoint (x.posted endpoint d) d s
      else some (write (switched_off d) [] s)

  abbrev pub deliver_by : Channel → WebhookDelivery → NotificationStore → Option NotificationStore
  deliver_by email d s = some (deliver_email d s)
  deliver_by webhook d s = deliver_webhook (find_endpoint d.endpoint_id x.policy.endpoints) d s

  abbrev pub deliver_found : Option WebhookDelivery → NotificationStore → Option NotificationStore
  deliver_found none s = some s
  deliver_found (some d) s = if is_open d.status then deliver_by d.channel d s else some s

  -- One turn of the loop: the row as it is then, or none where the turn raises.
  unfoldable pub deliver : String → NotificationStore → Option NotificationStore
  unfolding deliver_email
  deliver id s = deliver_found (find_delivery id s.deliveries) s

  -- Whether the loop came to its end, and the tables that are committed.
  unfoldable pub deliver_all : List String → NotificationStore → Bool × NotificationStore
  unfolding deliver
  deliver_all [] s = (true, s)
  deliver_all (id ∷ rest) s = next_turn (deliver_all rest) s (deliver id s)

  abbrev pub reached : Option ℕ → Bool
  reached none = false
  reached (some t) = leb t x.now

  unfoldable pub deliver_due_once : NotificationStore → Bool × NotificationStore
  unfolding deliver_all take_ids
  deliver_due_once s =
      if x.policy.enabled
      then deliver_all
          (take_ids 100
            (x.in_order (filter (λ d. is_open d.status && reached d.next_attempt_at) s.deliveries)))
          s
      else (true, s)
