-- ===== src/Notifications/Schedule.antt =====
-- The states of the queue: what a delivery's status says of its next attempt and of the attempts so far.
use na_sso.Prelude.{
  ℕ, ◌+◌, ◌≤◌, ◌<◌, String, ◌≡◌, subst, inl, inr, true, ◌&&◌, Option, none, some, List, [], ◌∷◌,
  map, All, leb, ltb, str_eq, str_append, arith, Bool-cases, if◌then◌else◌,
}
use na_sso.Models.{AuditEvent}
use na_sso.Notifications.{
  DeliveryStatus, pending, retrying, delivered, failed, disabled, Channel, webhook, email,
  WebhookDelivery, WebhookEndpoint, NotificationStore, endpoint_active, find_endpoint,
  find_delivery, modify_delivery, is_open, is_on,
}
use na_sso.Notifications.Delivery.{
  Posted, status, http_error, other_error, Attempt, success, failure, DeliveryWorld, switched_off,
  attempted, write, deliver_email, post_result, deliver_webhook, deliver_by, sent_result,
}
use na_sso.Notifications.Handlers.{is_off}

module _ (m : ℕ) where
  -- A delivery that waits has a time for its next attempt and attempts left, one that failed has had them
  -- all, and one that was switched off or delivered waits for no time.
  abbrev pub Fits : DeliveryStatus → Option ℕ → ℕ → Type 0
  Fits pending (some t) count = count < m
  Fits retrying (some t) count = count < m
  Fits delivered none count = count ≤ m
  Fits failed none count = count ≡ m
  Fits disabled none count = count < m
  Fits _ _ count = ⊥

  pub record IsScheduled (d : WebhookDelivery) : Type 0 where
    pub fits : Fits d.status d.next_attempt_at d.attempt_count

  pub open_below :
      (st : DeliveryStatus) (next : Option ℕ) (count : ℕ)
      → is_open st ≡ true
      → Fits st next count
      → count < m
  open_below pending (some t) count o h = h
  open_below retrying (some t) count o h = h
  open_below pending none count o h = elim h [ ]
  open_below retrying none count o h = elim h [ ]
  open_below delivered next count o h = cc
  open_below failed next count o h = cc
  open_below disabled next count o h = cc

  pub off_below :
      (st : DeliveryStatus) (next : Option ℕ) (count : ℕ)
      → is_off st ≡ true
      → Fits st next count
      → count < m
  off_below disabled none count o h = h
  off_below disabled (some t) count o h = elim h [ ]
  off_below pending next count o h = cc
  off_below retrying next count o h = cc
  off_below delivered next count o h = cc
  off_below failed next count o h = cc

  pub found-IsScheduled :
      (id : String) (l : List WebhookDelivery) (d : WebhookDelivery)
      → All IsScheduled l
      → find_delivery id l ≡ some d
      → IsScheduled d
  unfolding find_delivery
  found-IsScheduled id [] d h e = cc
  found-IsScheduled id (old ∷ l) d (h, hs) e = elim (Bool-cases (str_eq old.id id)) [
    | inl same ↦ subst IsScheduled (ground arith) h
    | inr other ↦ found-IsScheduled id l d hs (rw other at e)
  ]

  pub modify-IsScheduled :
      (id : String) (l : List WebhookDelivery) (d : WebhookDelivery)
      → All IsScheduled l
      → IsScheduled d
      → All IsScheduled (modify_delivery id (λ old. d) l)
  unfolding modify_delivery
  modify-IsScheduled id [] d h p = tt
  modify-IsScheduled id (old ∷ l) d (h, hs) p = elim (Bool-cases (str_eq old.id id)) [
    | inl same ↦ rw same (p, modify-IsScheduled id l d hs p)
    | inr other ↦ rw other (h, modify-IsScheduled id l d hs p)
  ]

  pub map-IsScheduled :
      (f : WebhookDelivery → WebhookDelivery) (l : List WebhookDelivery)
      → ((d : WebhookDelivery) → IsScheduled d → IsScheduled (f d))
      → All IsScheduled l
      → All IsScheduled (map f l)
  map-IsScheduled f [] keep h = tt
  map-IsScheduled f (d ∷ l) keep (h, hs) = (keep d h, map-IsScheduled f l keep hs)

  abbrev pub AllScheduled : NotificationStore → Type 0
  AllScheduled s = All IsScheduled s.deliveries

  -- What holds of the tables that a turn commits.
  abbrev pub Committed : Option NotificationStore → Type 0
  Committed none = Unit {0}
  Committed (some s) = AllScheduled s

  module _ (x : DeliveryWorld) (limit : x.policy.max_attempts ≡ m) where
    attempted-IsScheduled :
        (a : Attempt) (d : WebhookDelivery)
        → is_open d.status ≡ true
        → IsScheduled d
        → IsScheduled (attempted x a d)
    unfolding attempted
    attempted-IsScheduled success d o h =
        let below = open_below d.status d.next_attempt_at d.attempt_count o h.fits in
        record { fits = omega arith }
    attempted-IsScheduled (failure name) d o h =
        let below = open_below d.status d.next_attempt_at d.attempt_count o h.fits in
        elim (Bool-cases (leb x.policy.max_attempts (d.attempt_count + 1))) [
          | inl last ↦ rw last (record { fits = ground arith })
          | inr more ↦ rw more (record { fits = ground arith })
        ]

    off-IsScheduled :
        (d : WebhookDelivery)
        → is_open d.status ≡ true
        → IsScheduled d
        → IsScheduled (switched_off d)
    off-IsScheduled d o h = record {
      fits = open_below d.status d.next_attempt_at d.attempt_count o h.fits;
    }

    module _ (d : WebhookDelivery) (s : NotificationStore) (o : is_open d.status ≡ true)
        (p : IsScheduled d) (h : AllScheduled s) where
      attempt-Committed :
          (a : Attempt) (rows : List AuditEvent) → Committed (some (write (attempted x a d) rows s))
      attempt-Committed a rows =
          modify-IsScheduled _ s.deliveries (attempted x a d) h (attempted-IsScheduled a d o p)

      off-Committed : Committed (some (write (switched_off d) [] s))
      off-Committed =
          modify-IsScheduled d.id s.deliveries (switched_off d) h (off-IsScheduled d o p)

      post-Committed :
          (endpoint : WebhookEndpoint) (posted : Posted)
          → Committed (post_result x endpoint posted d s)
      post-Committed endpoint (status code) =
          attempt-Committed
            (if leb 200 code && ltb code 300
              then success
              else failure (str_append "HTTP " (x.decimal code)))
            []
      post-Committed endpoint (http_error name) = attempt-Committed (failure name) []
      post-Committed endpoint other_error = tt

      webhook-Committed :
          (endpoint : Option WebhookEndpoint) → Committed (deliver_webhook x endpoint d s)
      webhook-Committed none = off-Committed
      webhook-Committed (some endpoint) = elim (Bool-cases (endpoint_active s.states endpoint)) [
        | inl on ↦ rw on (post-Committed endpoint (x.posted endpoint d))
        | inr off ↦ rw off off-Committed
      ]

      pub by-Committed : (channel : Channel) → Committed (deliver_by x channel d s)
      unfolding deliver_email
      by-Committed webhook = webhook-Committed (find_endpoint d.endpoint_id x.policy.endpoints)
      by-Committed email = elim (Bool-cases (is_on x.policy.email_channel)) [
        | inl on ↦ rw on (attempt-Committed (sent_result d.recipient (x.sent d)) [])
        | inr off ↦ rw off off-Committed
      ]
