-- ===== src/Durability.antt =====
-- durability.py: the append-only event ledger with its idempotent commands, its deliveries and
-- its run projections. This file has the data; the children have the operations and the proofs.
pub mod Reduce
pub mod Append
pub mod Verify
pub mod Chain
pub mod Projection
pub mod Invariant
pub mod Commands
pub mod Outbox
pub mod Atomic
pub mod Lifecycle
pub mod Schema
pub mod Deliveries
pub mod Reachable
pub mod Cursor
pub mod Pages
mod Tests
use aegis_framework_platform.Base.{
  or_default, ℕ, String, Bool, Option, none, some, List, [], string_eq, pair_eq,
}
use aegis_framework_platform.Base.Dict.{Dict, get}
use aegis_framework_platform.Runtime.{Json, Payload}

pub data RunStatus : Type 0 where
  queued running waiting completed failed cancel_requested cancelled timed_out : RunStatus

pub data DeliveryStatus : Type 0 where
  pending claimed delivered dead_letter : DeliveryStatus

-- Identifiers are texts, and instants are counted from the epoch.
pub record EventDraft : Type 0 where
  pub event_id : String
  pub event_type : String
  pub occurred_at : ℕ
  pub actor_ref : String
  pub correlation_ref : String
  pub causation_ref : Option String
  pub schema_version : ℕ
  pub payload : Payload

-- `ApplicationEvent(..., **draft.model_dump(), ...)`: the draft's fields are the event's.
pub record ApplicationEvent : Type 0 where
  pub tenant_id : String
  pub aggregate_type : String
  pub aggregate_id : String
  pub aggregate_sequence : ℕ
  pub tenant_cursor : ℕ
  pub draft : EventDraft
  pub open draft use *
  pub aggregate_previous_hash : String
  pub tenant_previous_hash : String
  pub record_hash : String

pub record OutboxDraft : Type 0 where
  pub message_id : String
  pub destination : String
  pub message_type : String
  pub available_at : ℕ
  pub payload : Payload

pub record InboxDraft : Type 0 where
  pub message_id : String
  pub source : String
  pub message_type : String
  pub payload : Payload

pub record DeliveryRecord : Type 0 where
  pub tenant_id : String
  pub message_id : String
  pub direction : String
  pub destination : String
  pub message_type : String
  pub status : DeliveryStatus
  pub attempts : ℕ
  pub available_at : ℕ
  pub claim_token : Option String
  pub claim_until : Option ℕ
  pub last_error_code : Option String
  pub payload : Payload

pub record DeliveryClaim : Type 0 where
  pub tenant_id : String
  pub message_id : String
  pub claim_token : String
  pub destination : String
  pub message_type : String
  pub attempt : ℕ
  pub payload : Payload

pub record ProjectionCheckpoint : Type 0 where
  pub tenant_id : String
  pub projection_name : String
  pub last_cursor : ℕ
  pub last_event_hash : String
  pub version : ℕ

pub record RunView : Type 0 where
  pub tenant_id : String
  pub run_id : String
  pub incident_id : String
  pub request_ref : String
  pub workflow_id : String
  pub status : RunStatus
  pub version : ℕ
  pub last_cursor : ℕ
  pub created_at : ℕ
  pub updated_at : ℕ
  pub failure_code : Option String
  pub replayed : Bool

abbrev pub zero_hash : String
zero_hash = "0000000000000000000000000000000000000000000000000000000000000000"

abbrev pub max_events_per_append : ℕ
max_events_per_append = 32

abbrev pub max_delivery_attempts : ℕ
max_delivery_attempts = 5

abbrev pub max_resume_commands : ℕ
max_resume_commands = 32

pub record AggregateHead : Type 0 where
  pub sequence : ℕ
  pub record_hash : String

abbrev pub no_aggregate : AggregateHead
no_aggregate = record { sequence = 0; record_hash = zero_hash }

pub record TenantHead : Type 0 where
  pub cursor : ℕ
  pub record_hash : String

abbrev pub no_tenant : TenantHead
no_tenant = record { cursor = 0; record_hash = zero_hash }

pub record IdempotencyRecord : Type 0 where
  pub fingerprint : String
  pub run_id : String

-- The fields of `InMemoryDurability`; the lock makes each method one step. A key of two parts
-- that the source writes as a triple is nested to the right.
pub record Durability : Type 0 where
  pub events : Dict String (List ApplicationEvent)
  pub aggregate_heads : Dict (String × (String × String)) AggregateHead
  pub tenant_heads : Dict String TenantHead
  pub event_ids : List (String × String)
  pub idempotency : Dict (String × String) IdempotencyRecord
  pub deliveries : Dict (String × (String × String)) DeliveryRecord
  pub runs : Dict (String × String) RunView
  pub projection_checkpoints : Dict (String × String) ProjectionCheckpoint

-- `InMemoryDurability.__init__`
abbrev pub init : Durability
init = record {
  events = [];
  aggregate_heads = [];
  tenant_heads = [];
  event_ids = [];
  idempotency = [];
  deliveries = [];
  runs = [];
  projection_checkpoints = [];
}

-- `self._events.get(tenant_id, ())`
abbrev pub tenant_events : Durability → String → List ApplicationEvent
tenant_events s tenant_id = or_default (get tenant_id s.events) []

abbrev pub aggregate_head : Durability → String × (String × String) → AggregateHead
aggregate_head s key = or_default (get key s.aggregate_heads) no_aggregate

abbrev pub tenant_head : Durability → String → TenantHead
tenant_head s tenant_id = or_default (get tenant_id s.tenant_heads) no_tenant
