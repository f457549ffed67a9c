-- ===== src/Notifications/Ends.antt =====
-- A delivery ends: its attempts are bounded by the policy.
use na_sso.Prelude.{
  ℕ, ◌+◌, ◌≤◌, ◌<◌, String, ◌≡◌, ◌≢◌, refl, sym, subst, ◌⊎◌, inl, inr, true, false, ◌&&◌, Option,
  none, some, List, [], ◌∷◌, All, length, leb, ltb, str_append, eq_iff, arith, Bool-cases,
  if◌then◌else◌,
}
use na_sso.Models.{AuditEvent}
use na_sso.Notifications.{
  Channel, webhook, email, WebhookDelivery, WebhookEndpoint, NotificationStore, endpoint_active,
  find_endpoint, find_delivery, modify_delivery, is_open, is_on,
}
use na_sso.Notifications.Delivery.{
  Posted, status, http_error, other_error, Attempt, success, failure, DeliveryWorld, switched_off,
  attempted, write, sent_result, deliver_email, post_result, deliver_webhook, deliver_by, deliver,
}

pub find_delivery-id :
    (id : String) (l : List WebhookDelivery) (d : WebhookDelivery)
    → find_delivery id l ≡ some d
    → d.id ≡ id
unfolding find_delivery
find_delivery-id id [] d h = ground arith
find_delivery-id id (e ∷ l) d h = ground (arith, eq_iff e.id id, find_delivery-id id l d)

pub find_delivery-write :
    (id : String) (l : List WebhookDelivery) (d d' : WebhookDelivery)
    → find_delivery id l ≡ some d
    → d'.id ≡ id
    → find_delivery id (modify_delivery id (λ old. d') l) ≡ some d'
unfolding find_delivery modify_delivery
find_delivery-write id [] d d' h e = ground arith
find_delivery-write id (old ∷ l) d d' h e =
    ground (arith, eq_iff old.id id, eq_iff d'.id id, find_delivery-write id l d d')

-- The deliveries are no longer attempted, or were attempted once more and less often than allowed.
abbrev pub Progress : ℕ → WebhookDelivery → WebhookDelivery → Type 0
Progress m d d' =
    (is_open d'.status ≡ false)
    ⊎ ((d'.attempt_count ≡ d.attempt_count + 1) × (d'.attempt_count < m))

-- What a turn leaves of a delivery.
pub record Turn (m : ℕ) (d : WebhookDelivery) (r : Option NotificationStore) : Type 0 where
  pub after : NotificationStore
  pub row : WebhookDelivery
  pub committed : r ≡ some after
  pub found : find_delivery d.id after.deliveries ≡ some row
  pub progress : Progress m d row

module _ (x : DeliveryWorld) (d : WebhookDelivery) (s : NotificationStore)
    (found : find_delivery d.id s.deliveries ≡ some d) where
  write-Turn :
      (d' : WebhookDelivery) (rows : List AuditEvent)
      → d'.id ≡ d.id
      → Progress x.policy.max_attempts d d'
      → Turn x.policy.max_attempts d (some (write d' rows s))
  write-Turn d' rows e progress = record {
    after = write d' rows s;
    row = d';
    committed = refl;
    found =
        subst (λ id. find_delivery d.id (modify_delivery id (λ old. d') s.deliveries) ≡ some d')
          (sym e) (find_delivery-write d.id s.deliveries d d' found e);
    progress = progress;
  }

  attempted-id : (a : Attempt) → (attempted x a d).id ≡ d.id
  unfolding attempted
  attempted-id success = refl
  attempted-id (failure name) = ground arith

  attempted-Progress : (a : Attempt) → Progress x.policy.max_attempts d (attempted x a d)
  unfolding attempted
  attempted-Progress success = inl refl
  attempted-Progress (failure name) =
      elim (Bool-cases (leb x.policy.max_attempts (d.attempt_count + 1))) [
        | inl last ↦ rw last (inl refl)
        | inr more ↦ rw more (inr (refl, ground arith))
      ]

  attempt-Turn :
      (a : Attempt) (rows : List AuditEvent)
      → Turn x.policy.max_attempts d (some (write (attempted x a d) rows s))
  attempt-Turn a rows = write-Turn (attempted x a d) rows (attempted-id a) (attempted-Progress a)

  off-Turn : Turn x.policy.max_attempts d (some (write (switched_off d) [] s))
  off-Turn = write-Turn (switched_off d) [] refl (inl refl)

  email-Turn : Turn x.policy.max_attempts d (some (deliver_email x d s))
  unfolding deliver_email
  email-Turn = elim (Bool-cases (is_on x.policy.email_channel)) [
    | inl on ↦ rw on (attempt-Turn (sent_result d.recipient (x.sent d)) _)
    | inr off ↦ rw off off-Turn
  ]

  post-Turn :
      (endpoint : WebhookEndpoint) (posted : Posted)
      → posted ≢ other_error
      → Turn x.policy.max_attempts d (post_result x endpoint posted d s)
  post-Turn endpoint (status code) caught =
      attempt-Turn
        (if leb 200 code && ltb code 300
          then success
          else failure (str_append "HTTP " (x.decimal code)))
        _
  post-Turn endpoint (http_error name) caught = attempt-Turn (failure name) _
  post-Turn endpoint other_error caught = absurd (caught refl)

  module _ (caught : (endpoint : WebhookEndpoint) → x.posted endpoint d ≢ other_error) where
    webhook-Turn :
        (endpoint : Option WebhookEndpoint)
        → Turn x.policy.max_attempts d (deliver_webhook x endpoint d s)
    webhook-Turn none = off-Turn
    webhook-Turn (some endpoint) = elim (Bool-cases (endpoint_active s.states endpoint)) [
      | inl on ↦ rw on (post-Turn endpoint (x.posted endpoint d) (caught endpoint))
      | inr off ↦ rw off off-Turn
    ]

    by-Turn : (channel : Channel) → Turn x.policy.max_attempts d (deliver_by x channel d s)
    by-Turn email = email-Turn
    by-Turn webhook = webhook-Turn (find_endpoint d.endpoint_id x.policy.endpoints)

    -- An open delivery makes progress in a turn.
    pub deliver-Turn : is_open d.status ≡ true → Turn x.policy.max_attempts d (deliver x d.id s)
    unfolding deliver
    deliver-Turn open_status = rw (found, open_status) (by-Turn d.channel)

-- A delivery that is closed stays as it is.
deliver-closed :
    (x : DeliveryWorld) (id : String) (d : WebhookDelivery) (s : NotificationStore)
    → find_delivery id s.deliveries ≡ some d
    → is_open d.status ≡ false
    → deliver x id s ≡ some s
unfolding deliver
deliver-closed x id d s found closed = rw (found, closed)

-- Consecutive turns for one delivery.
abbrev and_then :
    Option NotificationStore
    → (NotificationStore → Option NotificationStore)
    → Option NotificationStore
and_then none f = none
and_then (some s) f = f s

unfoldable pub turns : List DeliveryWorld → String → NotificationStore → Option NotificationStore
turns [] id s = some s
turns (x ∷ rest) id s = and_then (deliver x id s) (turns rest id)

abbrev pub Catches : DeliveryWorld → Type 0
Catches x = (endpoint : WebhookEndpoint) (d : WebhookDelivery) → x.posted endpoint d ≢ other_error

-- The delivery with that key is closed.
pub record IsEnded (id : String) (r : Option NotificationStore) : Type 0 where
  pub after : NotificationStore
  pub row : WebhookDelivery
  pub committed : r ≡ some after
  pub found : find_delivery id after.deliveries ≡ some row
  pub closed : is_open row.status ≡ false

closed-IsEnded :
    (worlds : List DeliveryWorld) (id : String) (d : WebhookDelivery) (s : NotificationStore)
    → find_delivery id s.deliveries ≡ some d
    → is_open d.status ≡ false
    → IsEnded id (turns worlds id s)
unfolding turns
closed-IsEnded [] id d s found closed = record {
  after = s;
  row = d;
  committed = refl;
  found = found;
  closed = closed;
}
closed-IsEnded (x ∷ rest) id d s found closed =
    rw (deliver-closed x id d s found closed) (closed-IsEnded rest id d s found closed)

-- A turn, at the key under which the row is found.
turn_at :
    (x : DeliveryWorld) (m : ℕ) (id : String) (d : WebhookDelivery) (s : NotificationStore)
    → Catches x
    → x.policy.max_attempts ≡ m
    → find_delivery id s.deliveries ≡ some d
    → is_open d.status ≡ true
    → (after : NotificationStore) × (row : WebhookDelivery) × (deliver x id s ≡ some after)
      × (find_delivery id after.deliveries ≡ some row)
      × Progress m d row
turn_at x m id d s caught limit found open_status =
    let same = find_delivery-id id s.deliveries d found in
    let t =
      deliver-Turn x d s (subst (λ i. find_delivery i s.deliveries ≡ some d) (sym same) found)
        (λ endpoint. caught endpoint d) open_status in
    (
      t.after,
      t.row,
      subst (λ i. deliver x i s ≡ some t.after) same t.committed,
      subst (λ i. find_delivery i t.after.deliveries ≡ some t.row) same t.found,
      subst (λ n. Progress n d t.row) limit t.progress,
    )

-- Turn after turn for one delivery of the queue, in which no POST raises an error that httpx does not declare
-- and under one limit of the attempts, come to their end; and when there were as many as the limit leaves for the
-- delivery, and one at least, it is delivered, failed or disabled, whatever the endpoints answered.
pub turns-IsEnded :
    (m : ℕ) (worlds : List DeliveryWorld) (id : String) (d : WebhookDelivery)
    (s : NotificationStore)
    → All (λ x. Catches x × (x.policy.max_attempts ≡ m)) worlds
    → find_delivery id s.deliveries ≡ some d
    → m ≤ d.attempt_count + length worlds
    → 0 < length worlds
    → IsEnded id (turns worlds id s)
unfolding turns
turns-IsEnded m [] id d s same found enough some_turn = absurd (omega arith)
turns-IsEnded m (x ∷ rest) id d s ((caught, limit), same) found enough some_turn =
    elim (Bool-cases (is_open d.status)) [
      | inr closed ↦
          rw (deliver-closed x id d s found closed) (closed-IsEnded rest id d s found closed)
      | inl open_status ↦
          let (after, row, committed, found', progress) =
            turn_at x m id d s caught limit found open_status in
          rw committed (elim progress [
            | inl closed ↦ closed-IsEnded rest id row after found' closed
            | inr (count, below) ↦
                turns-IsEnded m rest id row after same found' (omega arith) (omega arith)
          ])
    ]
