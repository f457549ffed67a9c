-- ===== src/Notifications/Dedupe.antt =====
-- A destination gets one delivery of an event under one key, and what stops a scan.
use na_sso.Prelude.{
  String, ◌≡◌, refl, true, false, ap, ◌∙◌, ◌&&◌, none, some, List, [], ◌∷◌, ◌++◌, filter, str_eq,
  eq_iff, arith,
}
use na_sso.Notifications.{
  webhook, WebhookDelivery, WebhookEndpoint, NotificationStore, endpoint_active, find_endpoint,
  find_delivery, is_open,
}
use na_sso.Notifications.Queue.{
  Event, QueueWorld, enqueue_notification, webhook_delivery, email_delivery, is_queued_for,
}
use na_sso.Notifications.Delivery.{
  DeliveryWorld, other_error, deliver, deliver_found, deliver_by, deliver_webhook, post_result,
  deliver_all, deliver_due_once, take_ids, reached, next_turn,
}
use na_sso.Notifications.Enqueue.{enqueue-rule}

-- No two deliveries for one destination have the same key.
abbrev pub IsUnique : List WebhookDelivery → Type 0
IsUnique [] = Unit {0}
IsUnique (d ∷ rest) = (is_queued_for d.endpoint_id d.dedupe_key rest ≡ false) × IsUnique rest

is_queued_for-append :
    (id key : String) (l : List WebhookDelivery) (d : WebhookDelivery)
    → is_queued_for id key l ≡ false
    → (str_eq d.endpoint_id id && str_eq d.dedupe_key key) ≡ false
    → is_queued_for id key (l ++ d ∷ []) ≡ false
unfolding is_queued_for
is_queued_for-append id key [] d h n = ground arith
is_queued_for-append id key (old ∷ l) d h n = ground (arith, is_queued_for-append id key l d)

append-IsUnique :
    (l : List WebhookDelivery) (d : WebhookDelivery)
    → is_queued_for d.endpoint_id d.dedupe_key l ≡ false
    → IsUnique l
    → IsUnique (l ++ d ∷ [])
unfolding is_queued_for
append-IsUnique [] d n h = (refl, tt)
append-IsUnique (old ∷ l) d n (first, h) = (
  is_queued_for-append old.endpoint_id old.dedupe_key l d first (
      ground (
        arith,
        eq_iff d.endpoint_id old.endpoint_id,
        eq_iff old.endpoint_id d.endpoint_id,
        eq_iff d.dedupe_key old.dedupe_key,
        eq_iff old.dedupe_key d.dedupe_key,
      )),
  append-IsUnique l d (ground arith) h,
)

-- Queueing an event never puts a second delivery of the same key into the queue of a destination, which
-- the unique key of the table would refuse.
pub enqueue_notification-IsUnique :
    (x : QueueWorld) (e : Event) (s : NotificationStore)
    → IsUnique s.deliveries
    → IsUnique (enqueue_notification x e s).1.deliveries
enqueue_notification-IsUnique x e =
    enqueue-rule x e (λ s. IsUnique s.deliveries)
      (λ endpoint s new h. append-IsUnique s.deliveries (webhook_delivery x e endpoint) new h)
      (λ address content s new h.
        append-IsUnique s.deliveries (email_delivery x e address content) new h)
      (λ s rows h. h)

module _ (x : DeliveryWorld) (s : NotificationStore) (d : WebhookDelivery)
    (endpoint : WebhookEndpoint) (found : find_delivery d.id s.deliveries ≡ some d)
    (waits : is_open d.status ≡ true) (channel : d.channel ≡ webhook)
    (at_endpoint : find_endpoint d.endpoint_id x.policy.endpoints ≡ some endpoint)
    (on : endpoint_active s.states endpoint ≡ true)
    (raised : x.posted endpoint d ≡ other_error) where
  deliver-raised : deliver x d.id s ≡ none
  unfolding deliver
  deliver-raised =
      ap (λ o. deliver_found x o s) found
      ∙ rw waits (
          ap (λ c. deliver_by x c d s) channel
          ∙ ap (λ o. deliver_webhook x o d s) at_endpoint
          ∙ rw on (ap (λ r. post_result x endpoint r d s) raised))

  -- Where the POST of the first delivery that is due raises an error that httpx does not declare as
  -- HTTPError, as it does for a URL that it cannot parse, the scan ends there: that delivery and all the
  -- others that are due stay as they are, without a counted attempt.
  pub deliver_due_once-blocked :
      (rest : List String)
      → take_ids 100
          (x.in_order (filter (λ d. is_open d.status && reached x d.next_attempt_at) s.deliveries))
        ≡ d.id ∷ rest
      → (deliver_due_once x s).1 ≡ s
  unfolding deliver_due_once deliver_all
  deliver_due_once-blocked rest due =
      let all_due = filter (λ d. is_open d.status && reached x d.next_attempt_at) s.deliveries in
      let stopped : (deliver_all x (take_ids 100 (x.in_order all_due)) s).1 ≡ s =
        ap (λ ids. (deliver_all x ids s).1) due
        ∙ ap (λ r. (next_turn (deliver_all x rest) s r).1) deliver-raised in
      ground (arith, stopped)
