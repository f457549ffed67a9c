-- ===== src/Notifications/Requests.antt =====
-- The invariant of the queue over any sequence of calls.
use na_sso.Prelude.{
  ℕ, ◌<◌, String, ◌≡◌, inl, inr, Bool, true, false, not, ◌&&◌, Option, none, some, List, [], ◌∷◌,
  All, All-append, str_eq, Bool-cases, Option-cases, &&-right,
}
use na_sso.Notifications.{
  Channel, webhook, email, WebhookDelivery, WebhookEndpoint, NotificationPolicy, NotificationStore,
  find_endpoint, find_delivery, modify_delivery, is_open, is_on,
}
use na_sso.Notifications.Queue.{
  Event, QueueWorld, enqueue_notification, webhook_delivery, email_delivery,
}
use na_sso.Notifications.Delivery.{DeliveryWorld, deliver, deliver_all, deliver_due_once, next_turn}
use na_sso.Notifications.Handlers.{
  notification_endpoint_toggle, notification_delivery_retry, toggle_found, resumed, paused,
  retry_found, retry_by, requeued, is_off, switch, is_usable, is_retryable,
}
use na_sso.Notifications.Enqueue.{enqueue-rule}
use na_sso.Notifications.Schedule.{
  IsScheduled, AllScheduled, Committed, by-Committed, found-IsScheduled, modify-IsScheduled,
  map-IsScheduled, open_below, off_below,
}

-- A call that changes the queue.
pub data Request : Type 0 where
  enqueue : QueueWorld → Event → Request
  scan : DeliveryWorld → Request
  toggle retry : NotificationPolicy → ℕ → String → String → String → Request

unfoldable pub perform : Request → NotificationStore → NotificationStore
perform (enqueue x e) s = (enqueue_notification x e s).1
perform (scan x) s = (deliver_due_once x s).1
perform (toggle policy now actor endpoint_id enabled) s =
    (notification_endpoint_toggle policy now actor endpoint_id enabled s).1
perform (retry policy now actor id unused) s = (notification_delivery_retry policy now actor id s).1

unfoldable pub perform_all : List Request → NotificationStore → NotificationStore
perform_all [] s = s
perform_all (r ∷ rest) s = perform_all rest (perform r s)

-- The limit of the attempts is the configured one.
abbrev pub IsLimited : ℕ → Request → Type 0
IsLimited m (scan x) = x.policy.max_attempts ≡ m
IsLimited m _ = Unit {0}

module _ (m : ℕ) (positive : 0 < m) where
  module _ (x : DeliveryWorld) (limit : x.policy.max_attempts ≡ m) where
    deliver-Committed :
        (id : String) (s : NotificationStore) → AllScheduled m s → Committed m (deliver x id s)
    unfolding deliver
    deliver-Committed id s h = elim (Option-cases (find_delivery id s.deliveries)) [
      | inl none_found ↦ rw none_found h
      | inr (d, found) ↦ elim (Bool-cases (is_open d.status)) [
        | inl o ↦
            rw (found, o)
              (by-Committed m x limit d s o (found-IsScheduled m id s.deliveries d h found) h
                d.channel)
        | inr closed ↦ rw (found, closed) h
      ]
    ]

    next_turn-AllScheduled :
        (rest : NotificationStore → Bool × NotificationStore) (s : NotificationStore)
        (r : Option NotificationStore)
        → AllScheduled m s
        → Committed m r
        → ((t : NotificationStore) → AllScheduled m t → AllScheduled m (rest t).1)
        → AllScheduled m (next_turn rest s r).1
    next_turn-AllScheduled rest s none h c later = h
    next_turn-AllScheduled rest s (some t) h c later = later t c

    deliver_all-AllScheduled :
        (ids : List String) (s : NotificationStore)
        → AllScheduled m s
        → AllScheduled m (deliver_all x ids s).1
    unfolding deliver_all
    deliver_all-AllScheduled [] s h = h
    deliver_all-AllScheduled (id ∷ rest) s h =
        next_turn-AllScheduled (deliver_all x rest) s (deliver x id s) h (deliver-Committed id s h)
          (λ t p. deliver_all-AllScheduled rest t p)

    scan-AllScheduled :
        (s : NotificationStore) → AllScheduled m s → AllScheduled m (deliver_due_once x s).1
    unfolding deliver_due_once
    scan-AllScheduled s h = elim (Bool-cases x.policy.enabled) [
      | inl on ↦ rw on (deliver_all-AllScheduled _ s h)
      | inr off ↦ rw off h
    ]

  enqueue-AllScheduled :
      (x : QueueWorld) (e : Event) (s : NotificationStore)
      → AllScheduled m s
      → AllScheduled m (enqueue_notification x e s).1
  enqueue-AllScheduled x e s h =
      enqueue-rule x e (AllScheduled m)
        (λ endpoint t new p.
          All-append (IsScheduled m) t.deliveries (webhook_delivery x e endpoint ∷ []) p
            (record { fits = positive }, tt))
        (λ address content t new p.
          All-append (IsScheduled m) t.deliveries (email_delivery x e address content ∷ []) p
            (record { fits = positive }, tt))
        (λ t rows p. p) s h

  module _ (policy : NotificationPolicy) (now : ℕ) (actor : String) where
    resumed-IsScheduled :
        (id : String) (d : WebhookDelivery)
        → IsScheduled m d
        → IsScheduled m (resumed policy now actor id d)
    resumed-IsScheduled id d h = elim (Bool-cases (str_eq d.endpoint_id id && is_off d.status)) [
      | inl off ↦ rw off (record {
        fits = off_below m d.status d.next_attempt_at d.attempt_count (&&-right _ _ off) h.fits;
      })
      | inr other ↦ rw other h
    ]

    paused-IsScheduled :
        (id : String) (d : WebhookDelivery)
        → IsScheduled m d
        → IsScheduled m (paused policy now actor id d)
    paused-IsScheduled id d h = elim (Bool-cases (str_eq d.endpoint_id id && is_open d.status)) [
      | inl o ↦ rw o (record {
        fits = open_below m d.status d.next_attempt_at d.attempt_count (&&-right _ _ o) h.fits;
      })
      | inr other ↦ rw other h
    ]

    switch-AllScheduled :
        (on : Bool) (id : String) (s : NotificationStore)
        → AllScheduled m s
        → AllScheduled m (switch policy now actor on id s)
    switch-AllScheduled true id s h =
        map-IsScheduled m (resumed policy now actor id) s.deliveries (resumed-IsScheduled id) h
    switch-AllScheduled false id s h =
        map-IsScheduled m (paused policy now actor id) s.deliveries (paused-IsScheduled id) h

    toggle-AllScheduled :
        (endpoint : Option WebhookEndpoint) (id : String) (on : Bool) (s : NotificationStore)
        → AllScheduled m s
        → AllScheduled m (toggle_found policy now actor endpoint id on s).1
    toggle-AllScheduled none id on s h = h
    toggle-AllScheduled (some endpoint) id on s h = elim (Bool-cases (on && not endpoint.enabled)) [
      | inl refused ↦ rw refused h
      | inr allowed ↦ rw allowed (switch-AllScheduled on id s h)
    ]

    requeued-AllScheduled :
        (d : WebhookDelivery) (s : NotificationStore)
        → AllScheduled m s
        → All
            (IsScheduled m)
            (modify_delivery d.id (λ old. requeued policy now actor d) s.deliveries)
    requeued-AllScheduled d s h =
        modify-IsScheduled m d.id s.deliveries (requeued policy now actor d) h
          (record { fits = positive })

    retry_by-AllScheduled :
        (channel : Channel) (d : WebhookDelivery) (s : NotificationStore)
        → AllScheduled m s
        → AllScheduled m (retry_by policy now actor channel d s).1
    retry_by-AllScheduled email d s h = elim (Bool-cases (is_on policy.email_channel)) [
      | inl on ↦ rw on (requeued-AllScheduled d s h)
      | inr off ↦ rw off h
    ]
    retry_by-AllScheduled webhook d s h =
        elim (Bool-cases
          (is_usable policy now actor s (find_endpoint d.endpoint_id policy.endpoints))) [
            | inl on ↦ rw on (requeued-AllScheduled d s h)
            | inr off ↦ rw off h
          ]

    retry-AllScheduled :
        (found : Option WebhookDelivery) (s : NotificationStore)
        → AllScheduled m s
        → AllScheduled m (retry_found policy now actor found s).1
    retry-AllScheduled none s h = h
    retry-AllScheduled (some d) s h = elim (Bool-cases (is_retryable d.status)) [
      | inl closed ↦ rw closed (retry_by-AllScheduled d.channel d s h)
      | inr other ↦ rw other h
    ]

  perform-AllScheduled :
      (r : Request) (s : NotificationStore)
      → IsLimited m r
      → AllScheduled m s
      → AllScheduled m (perform r s)
  unfolding perform notification_endpoint_toggle notification_delivery_retry
  perform-AllScheduled (enqueue x e) s l h = enqueue-AllScheduled x e s h
  perform-AllScheduled (scan x) s l h = scan-AllScheduled x l s h
  perform-AllScheduled (toggle policy now actor id enabled) s l h =
      toggle-AllScheduled policy now actor (find_endpoint id policy.endpoints) id
        (str_eq enabled "true") s h
  perform-AllScheduled (retry policy now actor id unused) s l h =
      retry-AllScheduled policy now actor (find_delivery id s.deliveries) s h

  -- Under one positive limit of the attempts, any sequence of queued events, scans, switched destinations and
  -- retries keeps the queue in order: a delivery that is pending or retrying has a time for its next attempt
  -- and had fewer attempts than the limit, one that failed had exactly as many, one that is switched off had
  -- fewer, and none of those that are delivered, failed or switched off has such a time.
  pub perform_all-AllScheduled :
      (requests : List Request) (s : NotificationStore)
      → All (IsLimited m) requests
      → AllScheduled m s
      → AllScheduled m (perform_all requests s)
  unfolding perform_all
  perform_all-AllScheduled [] s l h = h
  perform_all-AllScheduled (r ∷ rest) s (l, ls) h =
      perform_all-AllScheduled rest (perform r s) ls (perform-AllScheduled r s l h)
