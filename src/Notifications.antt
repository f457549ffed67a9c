-- ===== src/Notifications.antt =====
-- na_sso/notifications.py, with the rows of the queue that na_sso/models.py declares.
pub mod Queue
pub mod Delivery
pub mod Handlers
pub mod Ends
pub mod Schedule
pub mod Requests
pub mod Enqueue
pub mod Dedupe
mod Examples
use na_sso.Prelude.{
  ℕ, String, Bool, true, false, not, ◌&&◌, Option, none, some, List, [], ◌∷◌, str_eq, if◌then◌else◌,
}
use na_sso.Models.{AuditEvent}

-- `DELIVERY_STATUSES`
pub data DeliveryStatus : Type 0 where
  pending retrying delivered failed disabled : DeliveryStatus

pub data Channel : Type 0 where
  webhook email : Channel

pub record WebhookDelivery : Type 0 where
  pub id : String
  pub endpoint_id : String
  pub channel : Channel
  pub recipient : Option String
  pub event_type : String
  pub dedupe_key : String
  pub payload : String
  pub status : DeliveryStatus
  pub attempt_count : ℕ
  pub next_attempt_at : Option ℕ
  pub last_error : String
  pub created_at : ℕ
  pub delivered_at : Option ℕ

pub record WebhookEndpointState : Type 0 where
  pub endpoint_id : String
  pub disabled : Bool
  pub updated_by : String

-- An endpoint and the email channel of the configuration.
pub record WebhookEndpoint : Type 0 where
  pub id : String
  pub enabled : Bool
  pub events : List String

pub record EmailChannel : Type 0 where
  pub enabled : Bool
  pub events : List String

pub record NotificationPolicy : Type 0 where
  pub enabled : Bool
  pub max_attempts : ℕ
  pub retry_base_seconds : ℕ
  pub retry_max_seconds : ℕ
  pub endpoints : List WebhookEndpoint
  pub email_channel : Option EmailChannel

-- The tables that the module writes.
pub record NotificationStore : Type 0 where
  pub deliveries : List WebhookDelivery
  pub states : List WebhookEndpointState
  pub audit : List AuditEvent

-- `_endpoint_state`
unfoldable pub endpoint_state : List WebhookEndpointState → String → Option WebhookEndpointState
endpoint_state [] id = none
endpoint_state (state ∷ rest) id =
    if str_eq state.endpoint_id id then some state else endpoint_state rest id

abbrev pub is_disabled_state : Option WebhookEndpointState → Bool
is_disabled_state none = false
is_disabled_state (some state) = state.disabled

-- `_endpoint_active`
unfoldable pub endpoint_active : List WebhookEndpointState → WebhookEndpoint → Bool
unfolding endpoint_state
endpoint_active states endpoint =
    endpoint.enabled && not (is_disabled_state (endpoint_state states endpoint.id))

-- The endpoint of an id in the configuration.
unfoldable pub find_endpoint : String → List WebhookEndpoint → Option WebhookEndpoint
find_endpoint id [] = none
find_endpoint id (endpoint ∷ rest) =
    if str_eq endpoint.id id then some endpoint else find_endpoint id rest

-- A delivery by its key, and writes to it.
unfoldable pub find_delivery : String → List WebhookDelivery → Option WebhookDelivery
find_delivery id [] = none
find_delivery id (d ∷ rest) = if str_eq d.id id then some d else find_delivery id rest

unfoldable pub modify_delivery :
    String → (WebhookDelivery → WebhookDelivery) → List WebhookDelivery → List WebhookDelivery
modify_delivery id f [] = []
modify_delivery id f (d ∷ rest) = (if str_eq d.id id then f d else d) ∷ modify_delivery id f rest

abbrev pub is_open : DeliveryStatus → Bool
is_open pending = true
is_open retrying = true
is_open _ = false

abbrev pub is_on : Option EmailChannel → Bool
is_on none = false
is_on (some channel) = channel.enabled
