-- ===== src/Durability/Pages/Tests.antt =====
-- Runs of the pages of the ledger, on a store with two events.
use aegis_framework_platform.Base.{
  ℕ, ◌+◌, ◌<◌, String, ◌≡◌, refl, true, none, some, [], ◌∷◌, ok, err, value_error, string_eq,
  pair_eq, contains, or_raise,
}
use aegis_framework_platform.Base.Dict.{get, put}
use aegis_framework_platform.Runtime.{text, Payload}
use aegis_framework_platform.Runtime.Plain.{plain, clean}
use aegis_framework_platform.Durability.{
  Durability, init, ApplicationEvent, EventDraft, zero_hash, queued, running,
}
use aegis_framework_platform.Durability.Append.{event_material, material_hash}
use aegis_framework_platform.Durability.Reduce.{reduce_run}
use aegis_framework_platform.Durability.Verify.{
  verify_integrity, events, expected_hash, is_accepted, scan_events,
}
use aegis_framework_platform.Durability.Cursor.{encode}
use aegis_framework_platform.Durability.Cursor.Plain.{plain_bytes, digest}
use aegis_framework_platform.Durability.Pages.{
  TimelinePage, activity_artifact, latest_of, timeline, project_timeline, timeline_item,
  appended_item, optional_identifier, next_token, run_page, text_or_none,
}
use aegis_framework_platform.Durability.Pages.Artifact.{activity_artifact-eq}
use aegis_framework_platform.Durability.Pages.Paging.{shown, after_items, timeline-resumes}

abbrev draft : String → String → Payload → EventDraft
draft event_id event_type payload = record {
  event_id = event_id;
  event_type = event_type;
  occurred_at = 5;
  actor_ref = "ann";
  correlation_ref = "c";
  causation_ref = none;
  schema_version = 1;
  payload = payload;
}

abbrev event : ℕ → String → EventDraft → ApplicationEvent
event position previous drafted = record {
  tenant_id = "a";
  aggregate_type = "investigation";
  aggregate_id = "r";
  aggregate_sequence = position;
  tenant_cursor = position;
  draft = drafted;
  aggregate_previous_hash = previous;
  tenant_previous_hash = previous;
  record_hash = "{}";
}

abbrev request : Payload
request =
    ("run_id", text "r")
    ∷ ("incident_id", text "i")
    ∷ ("request_ref", text "q")
    ∷ ("workflow_id", text "w")
    ∷ []

abbrev outcome : Payload
outcome = ("failure_code", text "none") ∷ []

abbrev two_events : Durability
two_events = record init {
  events =
      (
        "a",
        event 1 zero_hash (draft "e1" "investigation.requested" request)
            ∷ event 2 "{}" (draft "e2" "investigation.started" outcome)
            ∷ [],
      )
      ∷ [];
}

two_events-verify : verify_integrity plain two_events "a" ≡ true
unfolding verify_integrity scan_events is_accepted expected_hash event_material material_hash get
    put contains clean
two_events-verify = refl

activity_artifact-eq_example :
    activity_artifact two_events "a" "r" "investigation.started" ≡ some (ok (some outcome))
unfolding latest_of get
activity_artifact-eq_example =
    activity_artifact-eq plain two_events "a" "r" "investigation.started" two_events-verify

abbrev first_page : TimelinePage
first_page = record {
  items =
      (record {
        cursor = 1;
        event_type = "investigation.requested";
        occurred_at = 5;
        status = queued;
        failure_code = none;
      })
      ∷ [];
  next_cursor = some "e30HBwcHBwcHBwcHBwcHBwcHBwcHBwcHBwcHBwcHBwcHBw";
}

first_page-shown : timeline plain plain_bytes digest two_events "a" "r" 0 1 ≡ ok first_page
unfolding timeline project_timeline next_token run_page events get reduce_run or_raise timeline_item
    appended_item optional_identifier text_or_none encode
    aegis_framework_platform.Durability.Reduce.status_by_event
    aegis_framework_platform.Runtime.is_identifier aegis_framework_platform.Runtime.json_str
    aegis_framework_platform.Durability.Reduce.allowed
first_page-shown = refl

-- An event with a failure code that is no identifier.
abbrev free_text : ApplicationEvent
free_text =
    event 2 "{}" (draft "e2" "investigation.started" (("failure_code", text "no reply") ∷ []))

-- Building its item raises.
free_text-refused : timeline_item free_text running ≡ err value_error
unfolding timeline_item optional_identifier text_or_none get
    aegis_framework_platform.Runtime.is_identifier
free_text-refused = refl

timeline-resumes_example :
    (cursor : ℕ) × (0 < cursor)
    × ("e30HBwcHBwcHBwcHBwcHBwcHBwcHBwcHBwcHBwcHBwcHBw"
        ≡ encode plain plain_bytes digest "a" "r" cursor)
    × (shown (timeline plain plain_bytes digest two_events "a" "r" 0 (1 + 5))
        ≡ after_items first_page.items
            (shown (timeline plain plain_bytes digest two_events "a" "r" cursor 5)))
timeline-resumes_example =
    timeline-resumes plain plain_bytes digest two_events "a" "r" two_events-verify 0 1 5 first_page
      "e30HBwcHBwcHBwcHBwcHBwcHBwcHBwcHBwcHBwcHBwcHBw" first_page-shown refl
