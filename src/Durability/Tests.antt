-- ===== src/Durability/Tests.antt =====
-- Runs of the ledger's methods on small stores, and the theorems at them.
use aegis_framework_platform.Runtime.Plain.{plain, clean}
use aegis_framework_platform.Base.{
  nat_beq, if◌then◌else◌, ℕ, ◌<◌, String, ◌≡◌, refl, sym, ap, ◌∙◌, ◌≢◌, ◌↔◌, inl, inr, Bool, true,
  false, ◌==◌, List, [], ◌∷◌, some, none, Option, arith, string_eq, pair_eq, contains, length, All,
  Result, ok, err, or_raise, value_error, integrity_failure, idempotency_conflict,
  message_claim_conflict,
}
use aegis_framework_platform.Base.Dict.{Dict, get, put, IsDict}
use aegis_framework_platform.Runtime.{Runtime, Json, text, Payload, null}
use aegis_framework_platform.Durability.{
  Durability, init, EventDraft, ApplicationEvent, RunView, RunStatus, queued, running, completed,
  cancel_requested, DeliveryRecord, DeliveryClaim, pending, claimed, delivered, tenant_events,
  max_delivery_attempts,
}
use aegis_framework_platform.Durability.Reduce.{
  event_status, status_by_event, reduce_run, reduce_runs,
}
use aegis_framework_platform.Durability.Append.{Batch, batch_events, append}
use aegis_framework_platform.Durability.Verify.{verify_integrity, run_events, rebuild_run}
use aegis_framework_platform.Durability.Commands.{
  IdentityContext, InvestigationRequest, SignalCommand, cancel, run_fingerprint,
}
use aegis_framework_platform.Durability.Commands.Accept.{as_replayed, accept_run}
use aegis_framework_platform.Durability.Commands.Signal.{accept_signal}
use aegis_framework_platform.Durability.Reachable.{
  LedgerReach, start, after, accepted, signalled, reachable_verifies, reachable_projects,
  reachable_rebuild,
}
use aegis_framework_platform.Durability.Outbox.Wellformed.{IsTable}
use aegis_framework_platform.Durability.Deliveries.{reachable-IsTable}
use aegis_framework_platform.Durability.Schema.{any_stale_draft, append_stale}
use aegis_framework_platform.Durability.Atomic.{
  Unchanged, append-Unchanged, Accepted, accept_run-Accepted, accept_run_twice,
}

abbrev caller : IdentityContext
caller = record {
  tenant_id = "a";
  issuer = "idp";
  subject_id = "ann";
  request_id = "r";
  trace_id = "t1";
}

abbrev incident : InvestigationRequest
incident = record { incident_id = "i"; alert = null }

-- The store with one accepted run.
abbrev one_run : Durability
one_run = (accept_run plain caller incident false 5 init).1

abbrev run_name : String
run_name = "run:air"

one_run-reached : LedgerReach plain one_run
one_run-reached = after start (accepted caller incident false 5)

reachable_verifies_example : verify_integrity plain one_run "a" ≡ true
reachable_verifies_example = reachable_verifies plain one_run "a" one_run-reached

reachable_projects_example :
    reduce_runs plain none (run_events one_run "a" run_name) ≡ ok (get ("a", run_name) one_run.runs)
reachable_projects_example = reachable_projects plain one_run "a" run_name one_run-reached

reachable_rebuild_example :
    let rebuilt = rebuild_run plain "a" run_name one_run in
    (rebuilt.0 ≡ or_raise (get ("a", run_name) one_run.runs) value_error)
    × ((key : String × String) → get key rebuilt.1.runs ≡ get key one_run.runs)
reachable_rebuild_example = reachable_rebuild plain one_run "a" run_name one_run-reached

abbrev queued_view : RunView
queued_view = record {
  tenant_id = "a";
  run_id = run_name;
  incident_id = "i";
  request_ref = "request:ar";
  workflow_id = "workflow:tenant:arun:airrequest:ar";
  status = queued;
  version = 1;
  last_cursor = 1;
  created_at = 5;
  updated_at = 5;
  failure_code = none;
  replayed = false;
}

abbrev cancel_command : SignalCommand
cancel_command = record { command_id = "c"; run_id = run_name; command_type = cancel }

-- The store after the run's cancellation was requested.
abbrev cancelling : Durability
cancelling = (accept_signal plain caller cancel_command 6 7 one_run).1

cancelling-reached : LedgerReach plain cancelling
cancelling-reached = after one_run-reached (signalled caller cancel_command 6 7)

abbrev cancelling_view : RunView
cancelling_view = record queued_view {
  status = cancel_requested;
  version = 2;
  last_cursor = 2;
  updated_at = 7;
}

accept_view : (accept_run plain caller incident false 5 init).0 ≡ ok queued_view
unfolding clean aegis_framework_platform.Runtime.is_identifier
    aegis_framework_platform.Runtime.stable_id aegis_framework_platform.Runtime.decimal
    aegis_framework_platform.Runtime.durable_traceparent aegis_framework_platform.Base.Dict.get
    aegis_framework_platform.Base.Dict.has_key aegis_framework_platform.Base.Dict.put
    aegis_framework_platform.Base.Dict.pop aegis_framework_platform.Base.or_raise
    aegis_framework_platform.Base.all_distinct aegis_framework_platform.Base.contains
    aegis_framework_platform.Runtime.json_str
    aegis_framework_platform.Durability.Append.event_ids_of
    aegis_framework_platform.Durability.Append.any_recorded
    aegis_framework_platform.Durability.Append.outbox_ids
    aegis_framework_platform.Durability.Append.inbox_ids
    aegis_framework_platform.Durability.Append.any_delivery
    aegis_framework_platform.Durability.Append.check_append
    aegis_framework_platform.Durability.Append.newest
    aegis_framework_platform.Durability.Append.add_ids
    aegis_framework_platform.Durability.Append.put_outbox
    aegis_framework_platform.Durability.Append.put_inbox
    aegis_framework_platform.Durability.Append.update_runs
    aegis_framework_platform.Durability.Append.commit_append
    aegis_framework_platform.Durability.Append.commit_projected
    aegis_framework_platform.Durability.Append.event_material
    aegis_framework_platform.Durability.Append.material_hash
    aegis_framework_platform.Durability.Append.build_event
    aegis_framework_platform.Durability.Append.build_events
    aegis_framework_platform.Durability.Append.project_events
    aegis_framework_platform.Durability.Append.batch_events
    aegis_framework_platform.Durability.Append.checked_append
    aegis_framework_platform.Durability.Append.append_locked
    aegis_framework_platform.Durability.Commands.event_draft
    aegis_framework_platform.Durability.Commands.outbox_draft
    aegis_framework_platform.Durability.Commands.inbox_draft
    aegis_framework_platform.Durability.Commands.run_fingerprint
    aegis_framework_platform.Durability.Commands.new_run_id
    aegis_framework_platform.Durability.Commands.run_batch
    aegis_framework_platform.Durability.Commands.Accept.replay_of
    aegis_framework_platform.Durability.Commands.Accept.replay_run
    aegis_framework_platform.Durability.Commands.Accept.finish_run
    aegis_framework_platform.Durability.Commands.Accept.start_run
    aegis_framework_platform.Durability.Commands.Accept.accept_known
    aegis_framework_platform.Durability.Commands.Accept.accept_run
    aegis_framework_platform.Durability.Reduce.status_by_event
    aegis_framework_platform.Durability.Reduce.allowed
    aegis_framework_platform.Durability.Reduce.validate_run_transition
    aegis_framework_platform.Durability.Reduce.event_status
    aegis_framework_platform.Durability.Reduce.failure_code_of
    aegis_framework_platform.Durability.Reduce.required_text
    aegis_framework_platform.Durability.Reduce.required_identifier
    aegis_framework_platform.Durability.Reduce.first_view
    aegis_framework_platform.Durability.Reduce.next_view
    aegis_framework_platform.Durability.Reduce.view_from
    aegis_framework_platform.Durability.Reduce.reduce_run
    aegis_framework_platform.Runtime.all_identifiers
accept_view = refl

cancel_view : get ("a", run_name) cancelling.runs ≡ some cancelling_view
unfolding clean aegis_framework_platform.Runtime.is_identifier
    aegis_framework_platform.Runtime.stable_id aegis_framework_platform.Runtime.decimal
    aegis_framework_platform.Runtime.durable_traceparent aegis_framework_platform.Base.Dict.get
    aegis_framework_platform.Base.Dict.has_key aegis_framework_platform.Base.Dict.put
    aegis_framework_platform.Base.Dict.pop aegis_framework_platform.Base.or_raise
    aegis_framework_platform.Base.all_distinct aegis_framework_platform.Base.contains
    aegis_framework_platform.Runtime.json_str
    aegis_framework_platform.Durability.Append.event_ids_of
    aegis_framework_platform.Durability.Append.any_recorded
    aegis_framework_platform.Durability.Append.outbox_ids
    aegis_framework_platform.Durability.Append.inbox_ids
    aegis_framework_platform.Durability.Append.any_delivery
    aegis_framework_platform.Durability.Append.check_append
    aegis_framework_platform.Durability.Append.newest
    aegis_framework_platform.Durability.Append.add_ids
    aegis_framework_platform.Durability.Append.put_outbox
    aegis_framework_platform.Durability.Append.put_inbox
    aegis_framework_platform.Durability.Append.update_runs
    aegis_framework_platform.Durability.Append.commit_append
    aegis_framework_platform.Durability.Append.commit_projected
    aegis_framework_platform.Durability.Append.event_material
    aegis_framework_platform.Durability.Append.material_hash
    aegis_framework_platform.Durability.Append.build_event
    aegis_framework_platform.Durability.Append.build_events
    aegis_framework_platform.Durability.Append.project_events
    aegis_framework_platform.Durability.Append.batch_events
    aegis_framework_platform.Durability.Append.checked_append
    aegis_framework_platform.Durability.Append.append_locked
    aegis_framework_platform.Durability.Commands.event_draft
    aegis_framework_platform.Durability.Commands.outbox_draft
    aegis_framework_platform.Durability.Commands.inbox_draft
    aegis_framework_platform.Durability.Commands.run_fingerprint
    aegis_framework_platform.Durability.Commands.new_run_id
    aegis_framework_platform.Durability.Commands.run_batch
    aegis_framework_platform.Durability.Commands.Accept.replay_of
    aegis_framework_platform.Durability.Commands.Accept.replay_run
    aegis_framework_platform.Durability.Commands.Accept.finish_run
    aegis_framework_platform.Durability.Commands.Accept.start_run
    aegis_framework_platform.Durability.Commands.Accept.accept_known
    aegis_framework_platform.Durability.Commands.Accept.accept_run
    aegis_framework_platform.Durability.Reduce.status_by_event
    aegis_framework_platform.Durability.Reduce.allowed
    aegis_framework_platform.Durability.Reduce.validate_run_transition
    aegis_framework_platform.Durability.Reduce.event_status
    aegis_framework_platform.Durability.Reduce.failure_code_of
    aegis_framework_platform.Durability.Reduce.required_text
    aegis_framework_platform.Durability.Reduce.required_identifier
    aegis_framework_platform.Durability.Reduce.first_view
    aegis_framework_platform.Durability.Reduce.next_view
    aegis_framework_platform.Durability.Reduce.view_from
    aegis_framework_platform.Durability.Reduce.reduce_run
    aegis_framework_platform.Durability.Commands.Transition.view_after
    aegis_framework_platform.Durability.Commands.Transition.append_for
    aegis_framework_platform.Durability.Commands.Signal.message_type_of
    aegis_framework_platform.Durability.Commands.Signal.is_resume
    aegis_framework_platform.Durability.Commands.Signal.resume_count
    aegis_framework_platform.Durability.Commands.Signal.is_resume_command
    aegis_framework_platform.Durability.Commands.Signal.replay_signal
    aegis_framework_platform.Durability.Commands.Signal.signal_batch
    aegis_framework_platform.Durability.Commands.Signal.signal_new
    aegis_framework_platform.Durability.Commands.Signal.signal_known
    aegis_framework_platform.Durability.Commands.Signal.signal_of
    aegis_framework_platform.Durability.Commands.Signal.accept_signal
    aegis_framework_platform.Runtime.all_identifiers
    aegis_framework_platform.Durability.Commands.identifiers
cancel_view = refl

accept_run_twice_example :
    ((now : ℕ)
      → accept_run plain caller incident false now one_run
        ≡ (ok (as_replayed queued_view), one_run))
    × ((other : InvestigationRequest) (wait : Bool) (now : ℕ)
        → run_fingerprint plain incident false ≢ run_fingerprint plain other wait
        → accept_run plain caller other wait now one_run ≡ (err idempotency_conflict, one_run))
accept_run_twice_example =
    accept_run_twice plain caller incident false init 5 queued_view (unfold get in refl) accept_view

abbrev empty_batch : Batch
empty_batch = record {
  tenant_id = "a";
  aggregate_type = "investigation";
  aggregate_id = run_name;
  expected_version = 1;
  drafts = [];
  outbox = [];
  inbox = [];
}

append-Unchanged_example : Unchanged one_run (append plain empty_batch one_run)
append-Unchanged_example = append-Unchanged plain empty_batch one_run

accept_run-Accepted_example :
    Accepted plain caller incident false init (accept_run plain caller incident false 5 init)
accept_run-Accepted_example =
    accept_run-Accepted plain caller incident false init 5 (unfold get in refl)

abbrev stale_batch : Batch
stale_batch = record empty_batch {
  aggregate_type = "note";
  expected_version = 0;
  drafts =
      record {
        event_id = "e1";
        event_type = "note.written";
        occurred_at = 3;
        actor_ref = "ann";
        correlation_ref = "r";
        causation_ref = none;
        schema_version = 2;
        payload = [];
      }
      ∷ [];
}

abbrev stale_events : List ApplicationEvent
stale_events = batch_events plain stale_batch init

stale_accepted : (append plain stale_batch init).0 ≡ ok stale_events
unfolding append aegis_framework_platform.Durability.Append.event_ids_of
    aegis_framework_platform.Durability.Append.any_recorded
    aegis_framework_platform.Durability.Append.outbox_ids
    aegis_framework_platform.Durability.Append.inbox_ids
    aegis_framework_platform.Durability.Append.any_delivery
    aegis_framework_platform.Durability.Append.check_append
    aegis_framework_platform.Durability.Append.commit_append
    aegis_framework_platform.Durability.Append.commit_projected
    aegis_framework_platform.Durability.Append.build_events
    aegis_framework_platform.Durability.Append.project_events
    aegis_framework_platform.Durability.Append.checked_append
    aegis_framework_platform.Durability.Append.append_locked batch_events get
    aegis_framework_platform.Base.Dict.has_key aegis_framework_platform.Base.all_distinct
    aegis_framework_platform.Base.contains aegis_framework_platform.Runtime.all_identifiers
    aegis_framework_platform.Runtime.is_identifier
stale_accepted = refl

append_stale_example : verify_integrity plain (append plain stale_batch init).1 "a" ≡ false
append_stale_example =
    append_stale plain stale_batch init (unfold any_stale_draft in refl) stale_events stale_accepted

reachable-IsTable_example : IsTable cancelling.deliveries
reachable-IsTable_example = reachable-IsTable plain cancelling cancelling-reached
