-- ===== src/Durability/Commands.antt =====
-- The commands of durability.py: their data, and the drafts and the batch of `accept_run`.
pub mod Accept
pub mod Transition
pub mod Signal
use Prim.Native.String.{len, ◌++◌ as ◌+str+◌}
use aegis_framework_platform.Base.{
  or_raise, ℕ, zero, suc, ◌+◌, String, Bool, true, false, not, ◌&&◌, ◌||◌, Option, none, some, List,
  [], ◌∷◌, ltb, leb, ◌==◌, if◌then◌else◌, contains, string_eq, pair_eq, length, Error,
  idempotency_conflict, integrity_failure, payload_rejected, value_error, key_error, Result, ok,
  err, ◌>>=◌, ◌>>◌, raise_if, Action,
}
use aegis_framework_platform.Base.Dict.{Dict, get, put, pop, has_key}
use aegis_framework_platform.Runtime.{
  Json, bool, text, object, end, field, fields_of, Payload, Runtime, stable_id, durable_traceparent,
  all_identifiers,
}
use aegis_framework_platform.Durability.{
  Durability, EventDraft, ApplicationEvent, OutboxDraft, InboxDraft, DeliveryRecord, RunView,
  max_resume_commands,
}
use aegis_framework_platform.Durability.Append.{Batch, append_locked}

-- The fields of domain.IdentityContext that the ledger reads.
pub record IdentityContext : Type 0 where
  pub tenant_id : String
  pub issuer : String
  pub subject_id : String
  pub request_id : String
  pub trace_id : String

-- domain.InvestigationRequest, whose alert is kept as the document that it dumps to.
pub record InvestigationRequest : Type 0 where
  pub incident_id : String
  pub alert : Json

pub data CommandType : Type 0 where
  resume cancel : CommandType

pub record SignalCommand : Type 0 where
  pub command_id : String
  pub run_id : String
  pub command_type : CommandType

abbrev pub command_word : CommandType → String
command_word resume = "resume"
command_word cancel = "cancel"

-- `request.model_dump(mode="json")`
abbrev pub dump_request : InvestigationRequest → Json
dump_request r = object (field "incident_id" (text r.incident_id) (field "alert" r.alert end))

-- The fields of type `Identifier` of a draft that are built from plain texts: the `ValidationError`
-- is a `ValueError`.
unfoldable pub identifiers : List String → Result (Unit {0})
identifiers values = raise_if (not (all_identifiers values)) value_error

module _ (rt : Runtime) where
  payload_size : Payload → ℕ
  payload_size payload = len (rt.canonical_json (object (fields_of payload)))

  -- The validators of `EventDraft`, `OutboxDraft` and `InboxDraft`: a pydantic error is a
  -- `ValueError`.
  bounded : ℕ → ℕ → Payload → Result (Unit {0})
  unfolding payload_size
  bounded maximum_keys maximum_bytes payload =
      raise_if (ltb maximum_keys (length payload) || ltb maximum_bytes (payload_size payload))
        value_error

  unfoldable pub event_draft : EventDraft → Result EventDraft
  unfolding bounded
  event_draft draft = do bounded 32 32768 draft.payload; ok draft

  unfoldable pub outbox_draft : OutboxDraft → Result OutboxDraft
  unfolding bounded
  outbox_draft draft = do bounded 16 8192 draft.payload; ok draft

  unfoldable pub inbox_draft : InboxDraft → Result InboxDraft
  unfolding bounded
  inbox_draft draft = do bounded 16 8192 draft.payload; ok draft

  -- The digest by which a repeated request is recognised.
  unfoldable pub run_fingerprint : InvestigationRequest → Bool → String
  run_fingerprint request wait_for_signal = rt.sha256_hex (
      rt.canonical_json (
        object (
          field "request" (dump_request request)
            (field "wait_for_signal" (bool wait_for_signal) end))))

  unfoldable pub new_run_id : IdentityContext → InvestigationRequest → String
  new_run_id identity request =
      stable_id rt "run" (identity.tenant_id ∷ request.incident_id ∷ identity.request_id ∷ []) 32

  -- The batch of `accept_run`: the requested event and the message that starts the workflow.
  unfoldable pub run_batch : IdentityContext → InvestigationRequest → Bool → ℕ → Result Batch
  unfolding event_draft outbox_draft new_run_id
  run_batch identity request wait_for_signal now = do
    let run_id = new_run_id identity request
    let request_ref = stable_id rt "request" (identity.tenant_id ∷ identity.request_id ∷ []) 32
    let tenant_ref = stable_id rt "tenant" (identity.tenant_id ∷ []) 32
    let actor_ref = stable_id rt "actor" (identity.issuer ∷ identity.subject_id ∷ []) 32
    let workflow_id = stable_id rt "workflow" (tenant_ref ∷ run_id ∷ request_ref ∷ []) 40
    let trace_ref = durable_traceparent rt identity.trace_id
    draft ← event_draft (record {
      event_id = stable_id rt "event" (run_id ∷ "requested" ∷ []) 32;
      event_type = "investigation.requested";
      occurred_at = now;
      actor_ref = actor_ref;
      correlation_ref = request_ref;
      causation_ref = none;
      schema_version = 1;
      payload =
          ("incident_id", text request.incident_id)
          ∷ ("request", dump_request request)
          ∷ ("request_ref", text request_ref)
          ∷ ("run_id", text run_id)
          ∷ ("tenant_ref", text tenant_ref)
          ∷ ("trace_ref", text trace_ref)
          ∷ ("wait_for_signal", bool wait_for_signal)
          ∷ ("workflow_id", text workflow_id)
          ∷ [];
    })
    outbox ← outbox_draft (record {
      message_id = stable_id rt "outbox" (run_id ∷ "temporal-start" ∷ []) 32;
      destination = "temporal";
      message_type = "investigation.start";
      available_at = now;
      payload =
          ("actor_ref", text actor_ref)
          ∷ ("request_ref", text request_ref)
          ∷ ("run_id", text run_id)
          ∷ ("tenant_ref", text tenant_ref)
          ∷ ("trace_ref", text trace_ref)
          ∷ ("wait_for_signal", bool wait_for_signal)
          ∷ ("workflow_id", text workflow_id)
          ∷ [];
    })
    ok (record {
      tenant_id = identity.tenant_id;
      aggregate_type = "investigation";
      aggregate_id = run_id;
      expected_version = 0;
      drafts = draft ∷ [];
      outbox = outbox ∷ [];
      inbox = [];
    })
