-- ===== src/Notifications/Handlers.antt =====
-- na_sso/notifications.py: the handlers that switch a destination and that retry a delivery.
use na_sso.Prelude.{
  ℕ, String, Bool, true, false, not, ◌&&◌, Option, none, some, List, [], ◌∷◌, ◌++◌, map, str_eq,
  str_append, if◌then◌else◌,
}
use na_sso.Notifications.{
  DeliveryStatus, pending, failed, disabled, Channel, webhook, email, WebhookDelivery,
  WebhookEndpointState, WebhookEndpoint, NotificationPolicy, NotificationStore, endpoint_active,
  find_endpoint, find_delivery, modify_delivery, is_open, is_on,
}

-- The page without a message, or with one.
pub data NotificationReply : Type 0 where
  page enable_unavailable retry_unavailable enabled_page disabled_page queued_page :
      NotificationReply

abbrev pub is_off : DeliveryStatus → Bool
is_off disabled = true
is_off _ = false

abbrev pub is_retryable : DeliveryStatus → Bool
is_retryable failed = true
is_retryable disabled = true
is_retryable _ = false

unfoldable pub set_state :
    String → Bool → String → List WebhookEndpointState → List WebhookEndpointState
set_state id off actor [] = record { endpoint_id = id; disabled = off; updated_by = actor } ∷ []
set_state id off actor (state ∷ rest) =
    let later = set_state id off actor rest in
    if str_eq state.endpoint_id id
    then record state { disabled = off; updated_by = actor } ∷ rest
    else state ∷ later

module _ (policy : NotificationPolicy) (now : ℕ) (actor : String) where
  -- The update of the endpoint's deliveries when it is switched on, and when it is switched off.
  abbrev pub resumed : String → WebhookDelivery → WebhookDelivery
  resumed endpoint_id d =
      if str_eq d.endpoint_id endpoint_id && is_off d.status
      then record d { status = pending; next_attempt_at = some now; last_error = "" }
      else d

  abbrev pub paused : String → WebhookDelivery → WebhookDelivery
  paused endpoint_id d =
      if str_eq d.endpoint_id endpoint_id && is_open d.status
      then record d {
        status = disabled;
        next_attempt_at = none;
        last_error = "destination disabled by operator";
      }
      else d

  abbrev logged : String → String → String → NotificationStore → NotificationStore
  logged action subject detail s = record s {
    audit =
        s.audit
        ++ record {
          actor = actor;
          action = action;
          subject = subject;
          detail = detail;
          operation_id = none;
        }
          ∷ [];
  }

  abbrev pub switch : Bool → String → NotificationStore → NotificationStore
  switch true id s = logged "webhook.enabled" id "" (record s {
    states = set_state id false actor s.states;
    deliveries = map (resumed id) s.deliveries;
  })
  switch false id s = logged "webhook.disabled" id "" (record s {
    states = set_state id true actor s.states;
    deliveries = map (paused id) s.deliveries;
  })

  abbrev pub toggle_found :
      Option WebhookEndpoint
      → String
      → Bool
      → NotificationStore
      → NotificationReply × NotificationStore
  toggle_found none id on s = (page, s)
  toggle_found (some endpoint) id on s =
      if on && not endpoint.enabled
      then (enable_unavailable, s)
      else ((if on then enabled_page else disabled_page), switch on id s)

  unfoldable pub notification_endpoint_toggle :
      String → String → NotificationStore → NotificationReply × NotificationStore
  unfolding set_state
  notification_endpoint_toggle endpoint_id enabled s =
      toggle_found (find_endpoint endpoint_id policy.endpoints) endpoint_id (str_eq enabled "true")
        s

  abbrev pub requeued : WebhookDelivery → WebhookDelivery
  requeued d = record d {
    status = pending;
    attempt_count = 0;
    next_attempt_at = some now;
    last_error = "";
  }

  abbrev text_of : Option String → String
  text_of none = ""
  text_of (some t) = t

  abbrev requeue :
      String
      → String
      → String
      → WebhookDelivery
      → NotificationStore
      → NotificationReply × NotificationStore
  requeue action subject detail d s = (
    queued_page,
    logged action subject detail
        (record s { deliveries = modify_delivery d.id (λ old. requeued d) s.deliveries }),
  )

  abbrev pub is_usable : NotificationStore → Option WebhookEndpoint → Bool
  is_usable s none = false
  is_usable s (some endpoint) = endpoint_active s.states endpoint

  abbrev pub retry_by :
      Channel → WebhookDelivery → NotificationStore → NotificationReply × NotificationStore
  retry_by email d s =
      if is_on policy.email_channel
      then requeue "email.retry_requested" (text_of d.recipient) (str_append "delivery=" d.id) d s
      else (retry_unavailable, s)
  retry_by webhook d s =
      if is_usable s (find_endpoint d.endpoint_id policy.endpoints)
      then requeue "webhook.retry_requested" d.endpoint_id (str_append "delivery=" d.id) d s
      else (retry_unavailable, s)

  abbrev pub retry_found :
      Option WebhookDelivery → NotificationStore → NotificationReply × NotificationStore
  retry_found none s = (page, s)
  retry_found (some d) s = if is_retryable d.status then retry_by d.channel d s else (page, s)

  unfoldable pub notification_delivery_retry :
      String → NotificationStore → NotificationReply × NotificationStore
  notification_delivery_retry id s = retry_found (find_delivery id s.deliveries) s
