-- ===== src/Durability/Append.antt =====
-- `InMemoryDurability.append` and `_append_locked`, with `event_material`.
use aegis_framework_platform.Base.{
  ℕ, ◌+◌, String, Bool, false, not, ◌||◌, Option, none, some, List, [], ◌∷◌, ◌++◌, ltb, nat_beq,
  ◌==◌, if◌then◌else◌, contains, all_distinct, string_eq, pair_eq, length, last_of,
  concurrency_conflict, idempotency_conflict, value_error, index_error, Result, ok, err, ◌>>=◌,
  ◌>>◌, raise_if, Action,
}
use aegis_framework_platform.Base.Dict.{Dict, get, put, has_key}
use aegis_framework_platform.Runtime.{
  Json, null, int, text, object, end, field, fields_of, Runtime, all_identifiers,
}
use aegis_framework_platform.Durability.{
  Durability, EventDraft, ApplicationEvent, OutboxDraft, InboxDraft, DeliveryRecord, pending,
  delivered, RunView, AggregateHead, TenantHead, max_events_per_append, tenant_events,
  aggregate_head, tenant_head,
}
use aegis_framework_platform.Durability.Reduce.{reduce_run}

-- `map(f, xs)`, of the texts that a batch names.
unfoldable pub event_ids_of : List EventDraft → List String
event_ids_of [] = []
event_ids_of (d ∷ ds) = d.event_id ∷ event_ids_of ds

unfoldable pub outbox_ids : List OutboxDraft → List String
outbox_ids [] = []
outbox_ids (m ∷ ms) = m.message_id ∷ outbox_ids ms

unfoldable pub inbox_ids : List InboxDraft → List String
inbox_ids [] = []
inbox_ids (m ∷ ms) = m.message_id ∷ inbox_ids ms

-- `any((tenant_id, draft.event_id) in self._event_ids for draft in drafts)`
unfoldable pub any_recorded : String → List (String × String) → List String → Bool
any_recorded tenant_id seen [] = false
any_recorded tenant_id seen (i ∷ ids) =
    contains (tenant_id, i) seen || any_recorded tenant_id seen ids

-- `any((tenant_id, direction, message_id) in self._deliveries for ...)`
unfoldable pub any_delivery :
    String → String → Dict (String × (String × String)) DeliveryRecord → List String → Bool
any_delivery tenant_id direction deliveries [] = false
any_delivery tenant_id direction deliveries (i ∷ ids) =
    has_key (tenant_id, (direction, i)) deliveries
    || any_delivery tenant_id direction deliveries ids

-- The guards of `_append_locked`, in their order. The last one is the validation of the events that
-- are built, of which a batch has one at least: the drafts are valid, the plain texts may not be.
unfoldable pub check_append :
    Durability
    → String
    → String × (String × String)
    → ℕ
    → List EventDraft
    → List OutboxDraft
    → List InboxDraft
    → Result (Unit {0})
check_append s tenant_id aggregate_key expected_version drafts outbox inbox = do
  raise_if (not (nat_beq (aggregate_head s aggregate_key).sequence expected_version))
      concurrency_conflict
  raise_if (not (all_distinct (event_ids_of drafts))) idempotency_conflict
  raise_if (any_recorded tenant_id s.event_ids (event_ids_of drafts)) idempotency_conflict
  raise_if (not (all_distinct (outbox_ids outbox))) idempotency_conflict
  raise_if (any_delivery tenant_id "outbox" s.deliveries (outbox_ids outbox)) idempotency_conflict
  raise_if (not (all_distinct (inbox_ids inbox))) idempotency_conflict
  raise_if (any_delivery tenant_id "inbox" s.deliveries (inbox_ids inbox)) idempotency_conflict
  raise_if (not (all_identifiers (tenant_id ∷ aggregate_key.1.0 ∷ aggregate_key.1.1 ∷ [])))
      value_error

abbrev pub json_option : Option String → Json
json_option none = null
json_option (some s) = text s

-- `projected.get(key, self._runs.get(key))`
unfoldable pub newest :
    String × String
    → Dict (String × String) RunView
    → Dict (String × String) RunView
    → Option RunView
newest key projected runs = elim (get key projected) [ some view ↦ some view | none ↦ get key runs ]

-- The keyword arguments of `append`.
pub record Batch : Type 0 where
  pub tenant_id : String
  pub aggregate_type : String
  pub aggregate_id : String
  pub expected_version : ℕ
  pub drafts : List EventDraft
  pub outbox : List OutboxDraft
  pub inbox : List InboxDraft

abbrev pub aggregate_key : Batch → String × (String × String)
aggregate_key b = (b.tenant_id, (b.aggregate_type, b.aggregate_id))

-- The loop that records the identifiers of the appended events.
unfoldable pub add_ids :
    String → List ApplicationEvent → List (String × String) → List (String × String)
add_ids tenant_id [] seen = seen
add_ids tenant_id (event ∷ rest) seen = add_ids tenant_id rest ((tenant_id, event.event_id) ∷ seen)

-- The loop over `outbox`.
unfoldable pub put_outbox :
    String
    → List OutboxDraft
    → Dict (String × (String × String)) DeliveryRecord
    → Dict (String × (String × String)) DeliveryRecord
put_outbox tenant_id [] deliveries = deliveries
put_outbox tenant_id (message ∷ rest) deliveries = put_outbox tenant_id rest (
    put (tenant_id, ("outbox", message.message_id))
      (record {
        tenant_id = tenant_id;
        message_id = message.message_id;
        direction = "outbox";
        destination = message.destination;
        message_type = message.message_type;
        status = pending;
        attempts = 0;
        available_at = message.available_at;
        claim_token = none;
        claim_until = none;
        last_error_code = none;
        payload = message.payload;
      })
      deliveries)

-- The loop over `inbox`; `at` is the instant of the last appended event.
unfoldable pub put_inbox :
    String
    → ℕ
    → List InboxDraft
    → Dict (String × (String × String)) DeliveryRecord
    → Dict (String × (String × String)) DeliveryRecord
put_inbox tenant_id at [] deliveries = deliveries
put_inbox tenant_id at (message ∷ rest) deliveries = put_inbox tenant_id at rest (
    put (tenant_id, ("inbox", message.message_id))
      (record {
        tenant_id = tenant_id;
        message_id = message.message_id;
        direction = "inbox";
        destination = "application";
        message_type = message.message_type;
        status = delivered;
        attempts = 1;
        available_at = at;
        claim_token = none;
        claim_until = none;
        last_error_code = none;
        payload = message.payload;
      })
      deliveries)

-- `self._runs.update(projected)`
unfoldable pub update_runs :
    Dict (String × String) RunView → Dict (String × String) RunView → Dict (String × String) RunView
update_runs [] runs = runs
update_runs ((key, view) ∷ projected) runs = update_runs projected (put key view runs)

-- The writes of `_append_locked`, once nothing can be rejected. Of an empty batch `appended[-1]`
-- raises when the tenant's list has been created.
unfoldable pub commit_append :
    Batch
    → List ApplicationEvent
    → Dict (String × String) RunView
    → Action Durability (List ApplicationEvent)
unfolding add_ids put_outbox put_inbox update_runs
commit_append b [] projected s =
    (err index_error, record s { events = put b.tenant_id (tenant_events s b.tenant_id) s.events })
commit_append b (first ∷ rest) projected s =
    let last = last_of first rest in
    (
      ok (first ∷ rest),
      record s {
        event_ids = add_ids b.tenant_id (first ∷ rest) s.event_ids;
        events = put b.tenant_id (tenant_events s b.tenant_id ++ first ∷ rest) s.events;
        aggregate_heads =
            put (aggregate_key b)
              (record { sequence = last.aggregate_sequence; record_hash = last.record_hash })
              s.aggregate_heads;
        tenant_heads =
            put b.tenant_id (record { cursor = last.tenant_cursor; record_hash = last.record_hash })
              s.tenant_heads;
        deliveries =
            put_inbox b.tenant_id last.occurred_at b.inbox
              (put_outbox b.tenant_id b.outbox s.deliveries);
        runs = update_runs projected s.runs;
      },
    )

-- The end of `_append_locked`: a projection that is refused has written nothing.
unfoldable pub commit_projected :
    Batch
    → List ApplicationEvent
    → Result (Dict (String × String) RunView)
    → Action Durability (List ApplicationEvent)
unfolding commit_append
commit_projected b appended (err e) s = (err e, s)
commit_projected b appended (ok projected) s = commit_append b appended projected s

module _ (rt : Runtime) where
  -- `event_material`: the document whose canonical JSON is hashed
  unfoldable pub event_material :
      String → String → String → ℕ → ℕ → EventDraft → String → String → Json
  event_material tenant_id aggregate_type aggregate_id aggregate_sequence tenant_cursor draft
        aggregate_previous_hash tenant_previous_hash =
      object (
        field "actor_ref" (text draft.actor_ref) (
          field "aggregate_id" (text aggregate_id) (
            field "aggregate_previous_hash" (text aggregate_previous_hash) (
              field "aggregate_sequence" (int aggregate_sequence) (
                field "aggregate_type" (text aggregate_type) (
                  field "causation_ref" (json_option draft.causation_ref) (
                    field "correlation_ref" (text draft.correlation_ref) (
                      field "event_id" (text draft.event_id) (
                        field "event_type" (text draft.event_type) (
                          field "occurred_at" (text (rt.isoformat draft.occurred_at)) (
                            field "payload" (object (fields_of draft.payload)) (
                              field "record_schema_version" (int 1) (
                                field "schema_version" (int draft.schema_version) (
                                  field "tenant_cursor" (int tenant_cursor) (
                                    field "tenant_id" (text tenant_id) (
                                      field "tenant_previous_hash" (text tenant_previous_hash)
                                        end))))))))))))))))

  -- `sha256(material.encode()).hexdigest()`
  unfoldable pub material_hash : Json → String
  material_hash material = rt.sha256_hex (rt.canonical_json material)

  unfoldable pub build_event :
      String → String → String → ℕ → ℕ → EventDraft → String → String → ApplicationEvent
  unfolding material_hash
  build_event tenant_id aggregate_type aggregate_id aggregate_sequence tenant_cursor draft
        aggregate_previous_hash tenant_previous_hash =
      record {
        tenant_id = tenant_id;
        aggregate_type = aggregate_type;
        aggregate_id = aggregate_id;
        aggregate_sequence = aggregate_sequence;
        tenant_cursor = tenant_cursor;
        draft = draft;
        aggregate_previous_hash = aggregate_previous_hash;
        tenant_previous_hash = tenant_previous_hash;
        record_hash = material_hash (
            event_material tenant_id aggregate_type aggregate_id aggregate_sequence tenant_cursor
              draft aggregate_previous_hash tenant_previous_hash);
      }

  -- The loop over the drafts: each event takes the next sequence and cursor, and its hash is the
  -- previous hash of the one behind it.
  unfoldable pub build_events :
      String
      → String
      → String
      → AggregateHead
      → TenantHead
      → List EventDraft
      → List ApplicationEvent
  unfolding build_event
  build_events tenant_id aggregate_type aggregate_id aggregate tenant [] = []
  build_events tenant_id aggregate_type aggregate_id aggregate tenant (draft ∷ rest) =
      let event =
        build_event tenant_id aggregate_type aggregate_id (aggregate.sequence + 1)
          (tenant.cursor + 1) draft aggregate.record_hash tenant.record_hash in
      event
      ∷ build_events tenant_id aggregate_type aggregate_id
          (record { sequence = aggregate.sequence + 1; record_hash = event.record_hash })
          (record { cursor = tenant.cursor + 1; record_hash = event.record_hash }) rest

  -- The loop that fills `projected`; it reads `projected` first and `self._runs` behind it.
  unfoldable pub project_events :
      Dict (String × String) RunView
      → Dict (String × String) RunView
      → List ApplicationEvent
      → Result (Dict (String × String) RunView)
  project_events runs projected [] = ok projected
  project_events runs projected (event ∷ rest) =
      if not (event.aggregate_type == "investigation")
      then project_events runs projected rest
      else do
        view ← reduce_run rt (newest (event.tenant_id, event.aggregate_id) projected runs) event
        project_events runs (put (event.tenant_id, event.aggregate_id) view projected) rest

  -- The events that a batch would append to a state.
  unfoldable pub batch_events : Batch → Durability → List ApplicationEvent
  batch_events b s =
      build_events b.tenant_id b.aggregate_type b.aggregate_id
        (record (aggregate_head s (aggregate_key b)) { sequence = b.expected_version })
        (tenant_head s b.tenant_id) b.drafts

  unfoldable pub checked_append :
      Batch → Result (Unit {0}) → Action Durability (List ApplicationEvent)
  unfolding batch_events
  checked_append b (err e) s = (err e, s)
  checked_append b (ok _) s =
      let appended = batch_events b s in
      commit_projected b appended (project_events s.runs [] appended) s

  unfoldable pub append_locked : Batch → Action Durability (List ApplicationEvent)
  unfolding checked_append
  append_locked b s =
      checked_append b
        (check_append s b.tenant_id (aggregate_key b) b.expected_version b.drafts b.outbox b.inbox)
        s

  unfoldable pub append : Batch → Action Durability (List ApplicationEvent)
  unfolding append_locked
  append b s =
      if nat_beq (length b.drafts) 0 || ltb max_events_per_append (length b.drafts)
      then (err value_error, s)
      else append_locked b s
