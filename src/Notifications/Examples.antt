-- ===== src/Notifications/Examples.antt =====
-- Runs of the queue: one endpoint, and a delivery for it.
use na_sso.Prelude.{ℕ, ◌≡◌, refl, true, none, some, List, [], ◌∷◌, map, arith}
use na_sso.Notifications.{
  pending, failed, webhook, WebhookDelivery, WebhookEndpoint, NotificationPolicy, NotificationStore,
  find_delivery, find_endpoint, endpoint_active, modify_delivery,
}
use na_sso.Notifications.Queue.{
  Event, QueueWorld, enqueue_notification, is_queued_for, take_text, endpoint_key, email_key,
}
use na_sso.Notifications.Delivery.{
  Posted, status, http_error, other_error, DeliveryWorld, deliver_due_once, take_ids, retry_at,
}
use na_sso.Notifications.Ends.{turns, IsEnded, turns-IsEnded}
use na_sso.Notifications.Schedule.{AllScheduled}
use na_sso.Notifications.Requests.{Request, perform_all, perform, perform_all-AllScheduled}
use na_sso.Notifications.Dedupe.{IsUnique, enqueue_notification-IsUnique, deliver_due_once-blocked}

abbrev hook : WebhookEndpoint
hook = record { id = "hook"; enabled = true; events = "password.expired" ∷ [] }

abbrev policy : NotificationPolicy
policy = record {
  enabled = true;
  max_attempts = 2;
  retry_base_seconds = 30;
  retry_max_seconds = 3600;
  endpoints = hook ∷ [];
  email_channel = some (record { enabled = true; events = "password.expired" ∷ [] });
}

abbrev event : Event
event = record {
  event_type = "password.expired";
  actor = "system";
  subject = "alice";
  dedupe_key = "7";
  operation_id = none;
  target_id = none;
  outcome = some "expired";
}

abbrev noon : QueueWorld
noon = record {
  policy = policy;
  now = 1000;
  new_id = λ id. id;
  webhook_payload = λ e id. "{}";
  email_payload = λ content. "{}";
  address_of = λ name. some "alice@example.org";
}

abbrev empty : NotificationStore
empty = record { deliveries = []; states = []; audit = [] }

abbrev queued : NotificationStore
queued = (enqueue_notification noon event empty).1

abbrev to_hook : WebhookDelivery
to_hook = record {
  id = "hook";
  endpoint_id = "hook";
  channel = webhook;
  recipient = none;
  event_type = "password.expired";
  dedupe_key = "password.expired:7";
  payload = "{}";
  status = pending;
  attempt_count = 0;
  next_attempt_at = some 1000;
  last_error = "";
  created_at = 1000;
  delivered_at = none;
}

abbrev waiting : NotificationStore
waiting = record empty { deliveries = to_hook ∷ [] }

abbrev answered : Posted → ℕ → DeliveryWorld
answered posted now = record {
  policy = policy;
  now = now;
  posted = λ endpoint d. posted;
  sent = λ d. none;
  in_order = λ l. l;
  decimal = λ n. "n";
}

-- Both an endpoint and the account get the event.
two_queued :
    map (λ d. d.dedupe_key) queued.deliveries
    ≡ "password.expired:7" ∷ "password.expired:7:alice@example.org" ∷ []
unfolding enqueue_notification endpoint_active take_text is_queued_for endpoint_key email_key
two_queued = refl

enqueue_notification-IsUnique_example : IsUnique queued.deliveries
enqueue_notification-IsUnique_example = enqueue_notification-IsUnique noon event empty tt

turns-IsEnded_example : IsEnded "hook" (
    turns
      (answered (http_error "ConnectError") 1000 ∷ answered (status 500) 1030 ∷ [])
      "hook"
      waiting)
unfolding find_delivery
turns-IsEnded_example =
    turns-IsEnded 2 (answered (http_error "ConnectError") 1000 ∷ answered (status 500) 1030 ∷ [])
      "hook" to_hook waiting (((λ endpoint d e. cc), refl), (((λ endpoint d e. cc), refl), tt)) refl
      (omega arith) (omega arith)

abbrev requests : List Request
requests =
    Request.enqueue noon event
    ∷ Request.scan (answered (status 500) 1000)
    ∷ Request.scan (answered (status 500) 1030)
    ∷ Request.toggle policy 1040 "root" "hook" "false"
    ∷ Request.retry policy 1050 "root" "hook" ""
    ∷ []

perform_all-AllScheduled_example : AllScheduled 2 (perform_all requests empty)
perform_all-AllScheduled_example =
    perform_all-AllScheduled 2 (omega arith) requests empty (tt, (refl, (refl, (tt, (tt, tt))))) tt

-- The two attempts of the delivery fail.
both_failed :
    map
      (λ d. d.status)
      (perform_all
        (Request.scan (answered (status 500) 1000) ∷ Request.scan (answered (status 500) 1030) ∷ [])
        waiting).deliveries
    ≡ failed ∷ []
unfolding perform_all perform deliver_due_once find_delivery find_endpoint endpoint_active
    modify_delivery take_text retry_at
both_failed = refl

deliver_due_once-blocked_example :
    (deliver_due_once (answered other_error 1000) waiting).1 ≡ waiting
unfolding find_delivery find_endpoint endpoint_active take_ids
deliver_due_once-blocked_example =
    deliver_due_once-blocked (answered other_error 1000) waiting to_hook hook refl refl refl refl
      refl refl [] refl
