-- ===== src/Notifications/Enqueue.antt =====
-- The rule for what `enqueue_notification` keeps: a delivery is added only where none has its key.
use na_sso.Prelude.{
  ℕ, String, ◌≡◌, inl, inr, Bool, true, false, ◌&&◌, Option, none, some, List, [], ◌∷◌, any, str_eq,
  Bool-cases, if◌then◌else◌,
}
use na_sso.Models.{AuditEvent}
use na_sso.Notifications.{WebhookEndpoint, EmailChannel, NotificationStore}
use na_sso.Notifications.Queue.{
  Event, QueueWorld, enqueue_notification, queue_all, queue_for, queue_email, queue_content,
  queue_address, with_delivery, webhook_delivery, email_delivery, is_receiver, is_queued_for,
  endpoint_key, email_key, render_email_notification,
}

module _ (x : QueueWorld) (e : Event) (P : NotificationStore → Type 0)
    (webhook_added : (endpoint : WebhookEndpoint) (s : NotificationStore)
      → is_queued_for endpoint.id (endpoint_key x e) s.deliveries ≡ false
      → P s
      → P (with_delivery (webhook_delivery x e endpoint) s))
    (email_added : (address : String) (content : String × String) (s : NotificationStore)
      → is_queued_for "email" (email_key x e address) s.deliveries ≡ false
      → P s
      → P (with_delivery (email_delivery x e address content) s))
    (logged : (s : NotificationStore) (rows : List AuditEvent)
      → P s
      → P (record s { audit = rows })) where
  queue_for-rule :
      (endpoint : WebhookEndpoint) (n : ℕ) (s : NotificationStore)
      → P s
      → P (queue_for x e endpoint (n, s)).1
  queue_for-rule endpoint n s h =
      elim (Bool-cases (is_queued_for endpoint.id (endpoint_key x e) s.deliveries)) [
        | inl old ↦ rw old h
        | inr new ↦ rw new (webhook_added endpoint s new h)
      ]

  either :
      (test : Bool) (r r' : ℕ × NotificationStore) → P r.1 → P r'.1 → P (if test then r else r').1
  either true r r' h h' = h
  either false r r' h h' = h'

  queue_all-rule :
      (endpoints : List WebhookEndpoint) (r : ℕ × NotificationStore)
      → P r.1
      → P (queue_all x e endpoints r).1
  unfolding queue_all
  queue_all-rule [] r h = h
  queue_all-rule (endpoint ∷ rest) r h = queue_all-rule rest _ (
      either (is_receiver x e r.1 endpoint) (queue_for x e endpoint r) r
        (queue_for-rule endpoint r.0 r.1 h) h)

  queue_address-rule :
      (content : String × String) (address : Option String) (n : ℕ) (s : NotificationStore)
      → P s
      → P (queue_address x e content address (n, s)).1
  queue_address-rule content none n s h = logged s _ h
  queue_address-rule content (some address) n s h =
      elim (Bool-cases (is_queued_for "email" (email_key x e address) s.deliveries)) [
        | inl old ↦ rw old h
        | inr new ↦ rw new (email_added address content s new h)
      ]

  queue_content-rule :
      (content : Option (String × String)) (n : ℕ) (s : NotificationStore)
      → P s
      → P (queue_content x e content (n, s)).1
  queue_content-rule none n s h = logged s _ h
  queue_content-rule (some content) n s h =
      queue_address-rule content (x.address_of e.subject) n s h

  queue_email-rule :
      (channel : Option EmailChannel) (n : ℕ) (s : NotificationStore)
      → P s
      → P (queue_email x e channel (n, s)).1
  queue_email-rule none n s h = h
  queue_email-rule (some channel) n s h =
      elim (Bool-cases (channel.enabled && any (str_eq e.event_type) channel.events)) [
        | inl on ↦
            rw on (queue_content-rule (render_email_notification e.event_type e.subject) n s h)
        | inr off ↦ rw off h
      ]

  pub enqueue-rule : (s : NotificationStore) → P s → P (enqueue_notification x e s).1
  unfolding enqueue_notification
  enqueue-rule s h =
      let r = queue_all x e x.policy.endpoints (0, s) in
      either x.policy.enabled (queue_email x e x.policy.email_channel r) (0, s)
        (queue_email-rule x.policy.email_channel r.0 r.1
          (queue_all-rule x.policy.endpoints (0, s) h))
        h
