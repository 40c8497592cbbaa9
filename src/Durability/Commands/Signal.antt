-- ===== src/Durability/Commands/Signal.antt =====
-- `accept_signal`: a resume or cancel command, once for each command id, and a bounded number
-- of resumes.
use Prim.Native.String.{◌++◌ as ◌+str+◌}
use aegis_framework_platform.Base.{
  String, ℕ, Bool, true, false, not, ◌&&◌, ◌||◌, Option, none, some, [], ◌∷◌, leb, ◌==◌,
  if◌then◌else◌, string_eq, pair_eq, length, select, idempotency_conflict, integrity_failure,
  payload_rejected, Result, ok, err, ◌>>=◌, Action,
}
use aegis_framework_platform.Base.Dict.{get}
use aegis_framework_platform.Runtime.{Json, text, Runtime, stable_id}
use aegis_framework_platform.Durability.{Durability, DeliveryRecord, RunView, max_resume_commands}
use aegis_framework_platform.Durability.Append.{Batch}
use aegis_framework_platform.Durability.Commands.{
  IdentityContext, SignalCommand, CommandType, resume, cancel, command_word, event_draft,
  outbox_draft, inbox_draft,
}
use aegis_framework_platform.Durability.Commands.Accept.{as_replayed}
use aegis_framework_platform.Durability.Commands.Transition.{append_for}

-- `record.payload.get("run_id") == run_id`
names_run : String → Option Json → Bool
names_run run_id (some (text value)) = value == run_id
names_run run_id _ = false

unfoldable pub message_type_of : CommandType → String
message_type_of kind = "investigation." +str+ command_word kind

-- The accepted resumes of a run.
unfoldable pub is_resume : String → String → (String × (String × String)) × DeliveryRecord → Bool
unfolding names_run
is_resume tenant_id run_id (key, delivery) =
    delivery.tenant_id == tenant_id
    && delivery.direction == "inbox"
    && delivery.message_type == "investigation.resume"
    && names_run run_id (get "run_id" delivery.payload)

unfoldable pub resume_count : Durability → String → String → ℕ
unfolding is_resume
resume_count s tenant_id run_id = length (select (is_resume tenant_id run_id) s.deliveries)

-- A command id that was used for another command or run is refused.
unfoldable pub replay_signal : SignalCommand → RunView → DeliveryRecord → Action Durability RunView
unfolding names_run
replay_signal command current existing s =
    if not (existing.message_type == message_type_of command.command_type)
      || not (names_run command.run_id (get "run_id" existing.payload))
    then (err idempotency_conflict, s)
    else (ok (as_replayed current), s)

unfoldable pub is_resume_command : CommandType → Bool
is_resume_command resume = true
is_resume_command cancel = false

module _ (rt : Runtime) where
  unfoldable pub signal_batch : IdentityContext → SignalCommand → ℕ → ℕ → RunView → Result Batch
  unfolding event_draft outbox_draft inbox_draft message_type_of
  signal_batch identity command now_outbox now_event current = do
    let actor_ref = stable_id rt "actor" (identity.issuer ∷ identity.subject_id ∷ []) 32
    let event_type = "investigation." +str+ command_word command.command_type +str+ "_requested"
    inbox ← inbox_draft rt (record {
      message_id = command.command_id;
      source = "api";
      message_type = message_type_of command.command_type;
      payload =
          ("actor_ref", text actor_ref)
          ∷ ("command_id", text command.command_id)
          ∷ ("run_id", text command.run_id)
          ∷ [];
    })
    outbox ← outbox_draft rt (record {
      message_id = stable_id rt "outbox" (command.run_id ∷ command.command_id ∷ []) 32;
      destination = "temporal";
      message_type = event_type;
      available_at = now_outbox;
      payload =
          ("command_ref", text command.command_id)
          ∷ ("run_id", text command.run_id)
          ∷ ("workflow_id", text current.workflow_id)
          ∷ [];
    })
    draft ← event_draft rt (record {
      event_id = stable_id rt "event" (command.run_id ∷ event_type ∷ command.command_id ∷ []) 32;
      event_type = event_type;
      occurred_at = now_event;
      actor_ref = actor_ref;
      correlation_ref = current.request_ref;
      causation_ref = some command.command_id;
      schema_version = 1;
      payload = ("command_ref", text command.command_id) ∷ ("run_id", text command.run_id) ∷ [];
    })
    ok (record {
      tenant_id = identity.tenant_id;
      aggregate_type = "investigation";
      aggregate_id = command.run_id;
      expected_version = current.version;
      drafts = draft ∷ [];
      outbox = outbox ∷ [];
      inbox = inbox ∷ [];
    })

  unfoldable pub signal_new :
      IdentityContext → SignalCommand → ℕ → ℕ → RunView → Action Durability RunView
  unfolding append_for is_resume_command
  signal_new identity command now_outbox now_event current s =
      if is_resume_command command.command_type
        && leb max_resume_commands (resume_count s identity.tenant_id command.run_id)
      then (err payload_rejected, s)
      else append_for rt (identity.tenant_id, command.run_id)
          (signal_batch identity command now_outbox now_event current) s

  unfoldable pub signal_known :
      IdentityContext
      → SignalCommand
      → ℕ
      → ℕ
      → RunView
      → Option DeliveryRecord
      → Action Durability RunView
  unfolding replay_signal signal_new
  signal_known identity command now_outbox now_event current (some existing) s =
      replay_signal command current existing s
  signal_known identity command now_outbox now_event current none s =
      signal_new identity command now_outbox now_event current s

  unfoldable pub signal_of :
      IdentityContext → SignalCommand → ℕ → ℕ → Option RunView → Action Durability RunView
  unfolding signal_known
  signal_of identity command now_outbox now_event none s = (err integrity_failure, s)
  signal_of identity command now_outbox now_event (some current) s =
      signal_known identity command now_outbox now_event current
        (get (identity.tenant_id, ("inbox", command.command_id)) s.deliveries) s

  unfoldable pub accept_signal : IdentityContext → SignalCommand → ℕ → ℕ → Action Durability RunView
  unfolding signal_of
  accept_signal identity command now_outbox now_event s =
      signal_of identity command now_outbox now_event
        (get (identity.tenant_id, command.run_id) s.runs) s
