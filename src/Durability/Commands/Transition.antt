-- ===== src/Durability/Commands/Transition.antt =====
-- `record_transition`: one more event of a run, at most once for each operation.
use aegis_framework_platform.Base.{
  or_raise, String, ℕ, Option, none, some, List, [], ◌∷◌, if◌then◌else◌, contains, string_eq,
  pair_eq, integrity_failure, key_error, Result, ok, err, ◌>>=◌, ◌>>◌, Action,
}
use aegis_framework_platform.Base.Dict.{get, put}
use aegis_framework_platform.Runtime.{text, Payload, Runtime, stable_id}
use aegis_framework_platform.Durability.{Durability, ApplicationEvent, RunView}
use aegis_framework_platform.Durability.Append.{Batch, append_locked}
use aegis_framework_platform.Durability.Commands.{identifiers, event_draft}
use aegis_framework_platform.Durability.Commands.Accept.{as_replayed}

-- The keyword arguments; absent attributes and an empty mapping leave the payload alike.
pub record Transition : Type 0 where
  pub tenant_id : String
  pub run_id : String
  pub event_type : String
  pub operation_id : String
  pub actor_ref : String
  pub request_ref : String
  pub failure_code : Option String
  pub attributes : Payload

-- `payload.update(attributes)`
update : Payload → Payload → Payload
update payload [] = payload
update payload ((k, v) ∷ rest) = update (put k v payload) rest

with_failure : Option String → Payload → Payload
with_failure none payload = payload
with_failure (some code) payload = put "failure_code" (text code) payload

transition_payload : Transition → Payload
unfolding update with_failure
transition_payload t =
    with_failure t.failure_code (update (("run_id", text t.run_id) ∷ []) t.attributes)

-- The end of a command: the run's stored view.
unfoldable pub view_after :
    String × String → Result (List ApplicationEvent) × Durability → Result RunView × Durability
unfolding or_raise
view_after key (err e, s) = (err e, s)
view_after key (ok _, s) = (or_raise (get key s.runs) key_error, s)

module _ (rt : Runtime) where
  unfoldable pub transition_id : Transition → String
  transition_id t = stable_id rt "event" (t.run_id ∷ t.event_type ∷ t.operation_id ∷ []) 32

  unfoldable pub transition_batch : Transition → ℕ → RunView → Result Batch
  unfolding transition_payload event_draft
  transition_batch t now current = do
    identifiers (t.event_type ∷ t.actor_ref ∷ t.request_ref ∷ t.operation_id ∷ [])
    draft ← event_draft rt (record {
      event_id = transition_id t;
      event_type = t.event_type;
      occurred_at = now;
      actor_ref = t.actor_ref;
      correlation_ref = t.request_ref;
      causation_ref = some t.operation_id;
      schema_version = 1;
      payload = transition_payload t;
    })
    ok (record {
      tenant_id = t.tenant_id;
      aggregate_type = "investigation";
      aggregate_id = t.run_id;
      expected_version = current.version;
      drafts = draft ∷ [];
      outbox = [];
      inbox = [];
    })

  unfoldable pub append_for : String × String → Result Batch → Action Durability RunView
  unfolding view_after
  append_for key (err e) s = (err e, s)
  append_for key (ok batch) s = view_after key (append_locked rt batch s)

  unfoldable pub transition_of : Transition → ℕ → Option RunView → Action Durability RunView
  unfolding append_for transition_id
  transition_of t now none s = (err integrity_failure, s)
  transition_of t now (some current) s =
      if contains (t.tenant_id, transition_id t) s.event_ids
      then (ok (as_replayed current), s)
      else append_for (t.tenant_id, t.run_id) (transition_batch t now current) s

  unfoldable pub record_transition : Transition → ℕ → Action Durability RunView
  unfolding transition_of
  record_transition t now s = transition_of t now (get (t.tenant_id, t.run_id) s.runs) s
