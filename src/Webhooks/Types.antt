-- ===== src/Webhooks/Types.antt =====
-- The data of internal/webhooks: types.go, and the limits and results of internal/transforms.
use barq_control_plane.Base.{ℕ, String, Bool, Option, List, Result}
use barq_control_plane.Base.Ints.{ℤ, pos}
use barq_control_plane.Control.Types.{Codec, IsCodec}
use barq_control_plane.DataPlane.{EventContext, RelatedRead}
use barq_control_plane.Auth.Types.{Time}
use barq_control_plane.Auth.Tenants.{Scope}

abbrev pub webhook_collection : String
webhook_collection = "webhooks"

abbrev pub revision_collection : String
revision_collection = "webhook_revisions"

abbrev pub materialization_collection : String
materialization_collection = "webhook_materializations"

abbrev pub delivery_collection : String
delivery_collection = "webhook_deliveries"

abbrev pub cursor_collection : String
cursor_collection = "webhook_change_cursors"

-- transforms.Limits; the timeout is in nanoseconds.
pub record Limits : Type 0 where
  pub source_bytes : ℤ
  pub memory_bytes : ℤ
  pub stack_bytes : ℤ
  pub timeout : ℤ
  pub payload_bytes : ℤ

-- transforms.DefaultLimits
abbrev pub default_limits : Limits
default_limits = record {
  source_bytes = pos 65536;
  memory_bytes = pos 16777216;
  stack_bytes = pos 524288;
  timeout = pos 50000000;
  payload_bytes = pos 262144;
}

-- transforms.Result
pub record Outcome (V : Type 0) : Type 0 where
  pub matched : Bool
  pub payload : Option V

pub record Webhook (V : Type 0) : Type 0 where
  pub id : String
  pub name : String
  pub scope : Scope
  pub url : String
  pub events : List String
  pub object_types : List String
  pub reads : List (RelatedRead V)
  pub active_revision : ℕ
  pub enabled : Bool
  pub created_at : Time
  pub updated_at : Time

pub record Revision : Type 0 where
  pub webhook_id : String
  pub number : ℕ
  pub source : String
  pub limits : Limits
  pub signing_secret : String
  pub created_at : Time

pub record TransformConfig : Type 0 where
  pub language : String
  pub source : String

pub record Registration (V : Type 0) : Type 0 where
  pub name : String
  pub scope : Scope
  pub url : String
  pub events : List String
  pub object_types : List String
  pub reads : List (RelatedRead V)
  pub transform : TransformConfig
  pub limits : Limits

pub record Registered (V : Type 0) : Type 0 where
  pub webhook : Webhook V
  pub secret : String

-- An empty payload, `none`, is the nil slice.
pub record Materialization (V : Type 0) : Type 0 where
  pub id : String
  pub webhook_id : String
  pub revision : ℕ
  pub event_id : String
  pub input : EventContext V
  pub payload : Option V
  pub status : String
  pub error : String
  pub created_at : Time
  pub transformed_at : Option Time

-- `attempts` counts the calls of `deliver`, so it is not below zero.
pub record Delivery (V : Type 0) : Type 0 where
  pub id : String
  pub webhook_id : String
  pub revision : ℕ
  pub event_id : String
  pub url : String
  pub payload : Option V
  pub status : String
  pub stage : String
  pub attempts : ℕ
  pub last_status : ℕ
  pub last_error : String
  pub next_attempt_at : Time
  pub created_at : Time
  pub completed_at : Option Time

pub record Cursor : Type 0 where
  pub scope : Scope
  pub cursor : ℕ

pub record OperationalHealth : Type 0 where
  pub status : String
  pub pending : ℕ
  pub retrying : ℕ
  pub dead_transform : ℕ
  pub dead_delivery : ℕ
  pub oldest_pending_at : Option Time

-- What net/url finds in a text.
pub record Url : Type 0 where
  pub scheme : String
  pub host : String
  pub hostname : String

-- What net tells of an address.
pub record IpKind : Type 0 where
  pub is_private : Bool
  pub is_loopback : Bool
  pub is_link_local_unicast : Bool
  pub is_link_local_multicast : Bool
  pub is_unspecified : Bool

-- What is posted to a webhook.
pub record Post (V : Type 0) : Type 0 where
  pub url : String
  pub event_id : String
  pub webhook_id : String
  pub delivery_id : String
  pub signature : String
  pub body : Option V

-- How posting ended: no request could be built or sent, or a response came, with its status.
pub data Reply : Type 0 where
  failed : String → Reply
  answered : ℕ → Reply

-- What the webhooks use and do not implement: encoding/json, net/url, net, the random source, HMAC,
-- and the interface `transforms.Runtime`.
pub record HookEnv (V : Type 0) : Type 0 where
  pub valid : V → Bool
  pub nil : V
  pub hooks : Codec V (Webhook V)
  pub revisions : Codec V Revision
  pub materializations : Codec V (Materialization V)
  pub deliveries : Codec V (Delivery V)
  pub cursors : Codec V Cursor
  pub allow_private_urls : Bool
  pub parse_url : String → Option Url
  pub equal_fold : String → String → Bool
  pub parse_ip : String → Option IpKind
  pub random_hex : Result String
  pub random_secret : Result String
  pub hmac_hex : String → String → Option V → String
  pub validate_source : String → Limits → Result (Unit {0})
  pub execute : String → EventContext V → Limits → Result (Outcome V)

pub record IsLawfulHooks {V : Type 0} (env : HookEnv V) : Type 0 where
  pub hooks_law : IsCodec env.valid env.hooks
  pub revisions_law : IsCodec env.valid env.revisions
