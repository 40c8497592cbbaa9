-- ===== src/Durability/Reduce.antt =====
-- `reduce_run` and the run's state machine of durability.py.
use aegis_framework_platform.Base.{
  ◌+◌, String, Bool, true, false, not, Option, none, some, List, [], ◌∷◌, nat_beq, ◌==◌,
  if◌then◌else◌, string_eq, integrity_failure, Result, ok, err, or_raise, ◌>>=◌, ◌>>◌, raise_if,
}
use aegis_framework_platform.Base.Dict.{get}
use aegis_framework_platform.Runtime.{Json, text, null, Payload, Runtime, json_str, is_identifier}
use aegis_framework_platform.Durability.{
  RunStatus, queued, running, waiting, completed, failed, cancel_requested, cancelled, timed_out,
  ApplicationEvent, RunView,
}

-- The table of `reduce_run`.
unfoldable pub status_by_event : String → Option RunStatus
status_by_event t =
    if t == "investigation.requested"
    then some queued
    else if t == "investigation.started"
    then some running
    else if t == "investigation.evidence_collected"
    then some running
    else if t == "investigation.graph_completed"
    then some running
    else if t == "investigation.waiting"
    then some waiting
    else if t == "investigation.cancel_requested"
    then some cancel_requested
    else if t == "investigation.completed"
    then some completed
    else if t == "investigation.failed"
    then some failed
    else if t == "investigation.cancelled"
    then some cancelled
    else if t == "investigation.timed_out"
    then some timed_out
    else none

-- The table of `_validate_run_transition`.
unfoldable pub allowed : RunStatus → RunStatus → Bool
allowed queued running = true
allowed queued queued = true
allowed queued cancel_requested = true
allowed queued failed = true
allowed running running = true
allowed running waiting = true
allowed running completed = true
allowed running cancel_requested = true
allowed running failed = true
allowed running timed_out = true
allowed waiting waiting = true
allowed waiting completed = true
allowed waiting cancel_requested = true
allowed waiting failed = true
allowed waiting timed_out = true
allowed cancel_requested cancelled = true
allowed _ _ = false

unfoldable pub validate_run_transition : RunStatus → RunStatus → Result (Unit {0})
validate_run_transition previous current =
    raise_if (not (allowed previous current)) integrity_failure

-- The event's status: a resume keeps the current one.
unfoldable pub event_status : Option RunView → String → Option RunStatus
event_status none t = status_by_event t
event_status (some current) t =
    if t == "investigation.resume_requested" then some current.status else status_by_event t

-- `failure_code` must be absent, null or a text.
unfoldable pub failure_code_of : Option Json → Result (Option String)
failure_code_of none = ok none
failure_code_of (some null) = ok none
failure_code_of (some (text s)) = ok (some s)
failure_code_of (some j) = err integrity_failure

module _ (rt : Runtime) where
  -- `str(event.payload[key])`, whose `KeyError` becomes an integrity failure
  unfoldable pub required_text : Payload → String → Result String
  unfolding or_raise
  required_text payload key = do ok (json_str rt (← or_raise (get key payload) integrity_failure))

  -- The same for a field of type `Identifier`, whose `ValidationError` becomes one too
  unfoldable pub required_identifier : Payload → String → Result String
  unfolding required_text
  required_identifier payload key = do
    value ← required_text payload key
    raise_if (not (is_identifier value)) integrity_failure
    ok value

  -- The branch of `reduce_run` where there is no current projection.
  unfoldable pub first_view : RunStatus → ApplicationEvent → Result RunView
  unfolding required_identifier
  first_view status event = do
    raise_if (not (event.event_type == "investigation.requested")) integrity_failure
    run_id ← required_identifier event.payload "run_id"
    incident_id ← required_identifier event.payload "incident_id"
    request_ref ← required_identifier event.payload "request_ref"
    workflow_id ← required_identifier event.payload "workflow_id"
    ok (record {
      tenant_id = event.tenant_id;
      run_id = run_id;
      incident_id = incident_id;
      request_ref = request_ref;
      workflow_id = workflow_id;
      status = status;
      version = event.aggregate_sequence;
      last_cursor = event.tenant_cursor;
      created_at = event.occurred_at;
      updated_at = event.occurred_at;
      failure_code = none;
      replayed = false;
    })

  -- The branch of `reduce_run` that updates the current projection.
  unfoldable pub next_view : RunView → RunStatus → Option String → ApplicationEvent → Result RunView
  unfolding validate_run_transition
  next_view current status failure_code event = do
    raise_if (not (nat_beq event.aggregate_sequence (current.version + 1))) integrity_failure
    validate_run_transition current.status status
    ok (record current {
      failure_code = failure_code;
      last_cursor = event.tenant_cursor;
      replayed = false;
      status = status;
      updated_at = event.occurred_at;
      version = event.aggregate_sequence;
    })

  unfoldable pub view_from :
      Option RunView → RunStatus → Option String → ApplicationEvent → Result RunView
  unfolding first_view next_view
  view_from none status failure_code event = first_view status event
  view_from (some current) status failure_code event = next_view current status failure_code event

  unfoldable pub reduce_run : Option RunView → ApplicationEvent → Result RunView
  unfolding event_status or_raise failure_code_of view_from
  reduce_run current event = do
    status ← or_raise (event_status current event.event_type) integrity_failure
    failure_code ← failure_code_of (get "failure_code" event.payload)
    view_from current status failure_code event

  -- Any number of events, oldest first.
  unfoldable pub reduce_runs : Option RunView → List ApplicationEvent → Result (Option RunView)
  reduce_runs current [] = ok current
  reduce_runs current (event ∷ rest) = do
    next ← reduce_run current event
    reduce_runs (some next) rest
