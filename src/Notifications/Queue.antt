-- ===== src/Notifications/Queue.antt =====
-- na_sso/notifications.py: `enqueue_notification`.
use na_sso.Prelude.{
  ℕ, zero, suc, ◌+◌, String, Bool, ◌&&◌, Option, none, some, List, [], ◌∷◌, ◌++◌, any, str_eq,
  str_append, if◌then◌else◌,
}
use na_sso.Notifications.{
  pending, webhook, email, WebhookDelivery, WebhookEndpoint, EmailChannel, NotificationPolicy,
  NotificationStore, endpoint_active,
}

-- `text[:count]`
unfoldable pub take_text : ℕ → String → String
take_text zero text = ""
take_text (suc n) String.[] = ""
take_text (suc n) (String.◌∷◌ c rest) = String.◌∷◌ c (take_text n rest)

-- The text of an email, by its event and the name of the account.
unfoldable pub render_email_notification : String → String → Option (String × String)
render_email_notification event_type subject =
    if str_eq event_type "lifecycle.completed"
    then some (
      "Your NA-SSO account is ready",
      str_append "Hello " (
          str_append subject
            ",\n\nYour NA-SSO account has been provisioned or updated and is ready to use."),
    )
    else if str_eq event_type "password.expired"
    then some (
      "Your NA-SSO password has expired",
      str_append "Hello " (
          str_append subject
            ",\n\nYour NA-SSO password has expired. Sign in and set a new password."),
    )
    else if str_eq event_type "approval.completed"
    then some (
      "Your NA-SSO access request was approved",
      str_append "Hello " (str_append subject ",\n\nYour access request was approved."),
    )
    else none

-- The arguments of a call.
pub record Event : Type 0 where
  pub event_type : String
  pub actor : String
  pub subject : String
  pub dedupe_key : String
  pub operation_id : Option String
  pub target_id : Option String
  pub outcome : Option String

-- What uuid4 gives for an endpoint and for the email, the clock, `json.dumps` of the two payloads, and the
-- address of the account of that name, if there is one.
pub record QueueWorld : Type 0 where
  pub policy : NotificationPolicy
  pub now : ℕ
  pub new_id : String → String
  pub webhook_payload : Event → String → String
  pub email_payload : String × String → String
  pub address_of : String → Option String

unfoldable pub is_queued_for : String → String → List WebhookDelivery → Bool
is_queued_for endpoint_id key deliveries =
    any (λ d. str_eq d.endpoint_id endpoint_id && str_eq d.dedupe_key key) deliveries

abbrev pub with_delivery : WebhookDelivery → NotificationStore → NotificationStore
with_delivery d s = record s { deliveries = s.deliveries ++ d ∷ [] }

module _ (x : QueueWorld) (e : Event) where
  unfoldable pub endpoint_key : String
  unfolding take_text
  endpoint_key = take_text 256 (str_append e.event_type (str_append ":" e.dedupe_key))

  unfoldable pub email_key : String → String
  unfolding take_text
  email_key address =
      take_text 256 (
        str_append e.event_type (str_append ":" (str_append e.dedupe_key (str_append ":" address))))

  abbrev pub webhook_delivery : WebhookEndpoint → WebhookDelivery
  webhook_delivery endpoint = record {
    id = x.new_id endpoint.id;
    endpoint_id = endpoint.id;
    channel = webhook;
    recipient = none;
    event_type = e.event_type;
    dedupe_key = endpoint_key;
    payload = x.webhook_payload e (x.new_id endpoint.id);
    status = pending;
    attempt_count = 0;
    next_attempt_at = some x.now;
    last_error = "";
    created_at = x.now;
    delivered_at = none;
  }

  abbrev pub email_delivery : String → String × String → WebhookDelivery
  email_delivery address content = record {
    id = x.new_id "email";
    endpoint_id = "email";
    channel = email;
    recipient = some address;
    event_type = e.event_type;
    dedupe_key = email_key address;
    payload = x.email_payload content;
    status = pending;
    attempt_count = 0;
    next_attempt_at = some x.now;
    last_error = "";
    created_at = x.now;
    delivered_at = none;
  }

  -- One delivery for an endpoint that has none of that key.
  abbrev pub queue_for : WebhookEndpoint → ℕ × NotificationStore → ℕ × NotificationStore
  queue_for endpoint (queued, s) =
      if is_queued_for endpoint.id endpoint_key s.deliveries
      then (queued, s)
      else (queued + 1, with_delivery (webhook_delivery endpoint) s)

  abbrev pub is_receiver : NotificationStore → WebhookEndpoint → Bool
  is_receiver s endpoint =
      any (str_eq e.event_type) endpoint.events && endpoint_active s.states endpoint

  unfoldable pub queue_all : List WebhookEndpoint → ℕ × NotificationStore → ℕ × NotificationStore
  queue_all [] r = r
  queue_all (endpoint ∷ rest) r =
      queue_all rest (if is_receiver r.1 endpoint then queue_for endpoint r else r)

  abbrev skipped : String → NotificationStore → NotificationStore
  skipped action s = record s {
    audit =
        s.audit
        ++ record {
          actor = e.actor;
          action = action;
          subject = e.subject;
          detail = str_append "event=" e.event_type;
          operation_id = none;
        }
          ∷ [];
  }

  abbrev pub queue_address :
      String × String → Option String → ℕ × NotificationStore → ℕ × NotificationStore
  queue_address content none (queued, s) = (queued, skipped "email.skipped_no_recipient" s)
  queue_address content (some address) (queued, s) =
      if is_queued_for "email" (email_key address) s.deliveries
      then (queued, s)
      else (queued + 1, with_delivery (email_delivery address content) s)

  abbrev pub queue_content :
      Option (String × String) → ℕ × NotificationStore → ℕ × NotificationStore
  queue_content none (queued, s) = (queued, skipped "email.skipped_no_template" s)
  queue_content (some content) r = queue_address content (x.address_of e.subject) r

  abbrev pub queue_email : Option EmailChannel → ℕ × NotificationStore → ℕ × NotificationStore
  queue_email none r = r
  queue_email (some channel) r =
      if channel.enabled && any (str_eq e.event_type) channel.events
      then queue_content (render_email_notification e.event_type e.subject) r
      else r

  unfoldable pub enqueue_notification : NotificationStore → ℕ × NotificationStore
  unfolding queue_all render_email_notification
  enqueue_notification s =
      if x.policy.enabled
      then queue_email x.policy.email_channel (queue_all x.policy.endpoints (0, s))
      else (0, s)
