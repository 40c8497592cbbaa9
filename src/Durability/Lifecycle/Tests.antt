-- ===== src/Durability/Lifecycle/Tests.antt =====
-- The run's state machine at a run that completes.
use aegis_framework_platform.Runtime.Plain.{plain}
use aegis_framework_platform.Base.{
  ℕ, String, ◌≡◌, refl, false, List, [], ◌∷◌, some, none, string_eq, err, integrity_failure,
}
use aegis_framework_platform.Runtime.{text}
use aegis_framework_platform.Durability.{ApplicationEvent, RunView, RunStatus, completed}
use aegis_framework_platform.Durability.Reduce.{reduce_run}
use aegis_framework_platform.Durability.Lifecycle.{reduce_run-terminal}

abbrev event : String → ℕ → ApplicationEvent
event event_type n = record {
  tenant_id = "a";
  aggregate_type = "investigation";
  aggregate_id = "run";
  aggregate_sequence = n;
  tenant_cursor = n;
  draft = record {
    event_id = event_type;
    event_type = event_type;
    occurred_at = n;
    actor_ref = "ann";
    correlation_ref = "req";
    causation_ref = none;
    schema_version = 1;
    payload =
        ("run_id", text "run")
        ∷ ("incident_id", text "i")
        ∷ ("request_ref", text "req")
        ∷ ("workflow_id", text "wf")
        ∷ [];
  };
  aggregate_previous_hash = "";
  tenant_previous_hash = "";
  record_hash = "";
}

abbrev view : RunStatus → ℕ → RunView
view status n = record {
  tenant_id = "a";
  run_id = "run";
  incident_id = "i";
  request_ref = "req";
  workflow_id = "wf";
  status = status;
  version = n;
  last_cursor = n;
  created_at = 1;
  updated_at = n;
  failure_code = none;
  replayed = false;
}

reduce_run-terminal_example :
    reduce_run plain (some (view completed 3)) (event "investigation.started" 4)
    ≡ err integrity_failure
reduce_run-terminal_example =
    reduce_run-terminal plain (view completed 3) (event "investigation.started" 4) refl

abbrev history : List ApplicationEvent
history =
    event "investigation.requested" 1
    ∷ event "investigation.started" 2
    ∷ event "investigation.completed" 3
    ∷ []
