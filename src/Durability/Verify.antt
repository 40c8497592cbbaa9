-- ===== src/Durability/Verify.antt =====
-- `verify_integrity`, `verify_run_integrity`, `events`, `rebuild_run` and
-- `rebuild_run_projections` of durability.py.
use aegis_framework_platform.Base.{
  or_default, ℕ, zero, suc, ◌+◌, ◌-◌, String, Bool, true, false, not, ◌&&◌, ◌||◌, Option, none,
  some, List, [], ◌∷◌, ltb, leb, nat_beq, ◌==◌, if◌then◌else◌, contains, string_eq, pair_eq, length,
  take, select, integrity_failure, value_error, Result, ok, err, Action,
}
use aegis_framework_platform.Base.Dict.{Dict, get, put}
use aegis_framework_platform.Runtime.{Runtime}
use aegis_framework_platform.Durability.{
  Durability, ApplicationEvent, RunView, AggregateHead, no_aggregate, TenantHead, no_tenant,
  ProjectionCheckpoint, zero_hash, tenant_events, tenant_head,
}
use aegis_framework_platform.Durability.Reduce.{reduce_run, reduce_runs}
use aegis_framework_platform.Durability.Append.{event_material, material_hash}

-- `events`, whose filters are absent or exact
abbrev pub matches : Option String → String → Bool
matches none value = true
matches (some wanted) value = value == wanted

unfoldable pub events :
    Durability → String → Option String → Option String → ℕ → ℕ → Result (List ApplicationEvent)
events s tenant_id aggregate_type aggregate_id after_cursor limit =
    if ltb limit 1 || ltb 500 limit
    then err value_error
    else ok (
        take limit (
          select
            (λ event.
              ltb after_cursor event.tenant_cursor
              && matches aggregate_type event.aggregate_type
              && matches aggregate_id event.aggregate_id)
            (tenant_events s tenant_id)))

-- The events of one run, oldest first.
abbrev pub is_run_event : String → ApplicationEvent → Bool
is_run_event run_id event = event.aggregate_type == "investigation" && event.aggregate_id == run_id

abbrev pub run_events : Durability → String → String → List ApplicationEvent
run_events s tenant_id run_id = select (is_run_event run_id) (tenant_events s tenant_id)

-- The loop variables of `verify_integrity`.
pub record Scan : Type 0 where
  pub heads : Dict (String × String) AggregateHead
  pub tenant : TenantHead
  pub seen : List String

abbrev pub scan_start : Scan
scan_start = record { heads = []; tenant = no_tenant; seen = [] }

abbrev pub scan_head : Scan → String × String → AggregateHead
scan_head v key = or_default (get key v.heads) no_aggregate

abbrev pub event_key : ApplicationEvent → String × String
event_key event = (event.aggregate_type, event.aggregate_id)

-- What a pass over one accepted event leaves.
abbrev pub advance : Scan → ApplicationEvent → Scan
advance v event = record {
  heads =
      put (event_key event)
        (record { sequence = event.aggregate_sequence; record_hash = event.record_hash }) v.heads;
  tenant = record { cursor = event.tenant_cursor; record_hash = event.record_hash };
  seen = event.event_id ∷ v.seen;
}

-- The loop of `rebuild_run` and the checks around it.
unfoldable pub stored_rebuild :
    String → String → Result (Option RunView) → Action Durability RunView
stored_rebuild tenant_id run_id (err e) s = (err e, s)
stored_rebuild tenant_id run_id (ok none) s = (err integrity_failure, s)
stored_rebuild tenant_id run_id (ok (some view)) s =
    (ok view, record s { runs = put (tenant_id, run_id) view s.runs })

next_version : Option ProjectionCheckpoint → ℕ
next_version none = 1
next_version (some previous) = previous.version + 1

-- The end of `rebuild_run_projections`, which writes the checkpoint of the tenant's head.
unfoldable pub write_checkpoint :
    String
    → Result (Unit {0}) × Dict (String × String) RunView
    → Action Durability ProjectionCheckpoint
unfolding next_version
write_checkpoint tenant_id (err e, runs) s = (err e, record s { runs = runs })
write_checkpoint tenant_id (ok _, runs) s =
    let head = tenant_head s tenant_id in
    let key : String × String = (tenant_id, "investigation-runs") in
    let checkpoint : ProjectionCheckpoint = record {
      tenant_id = tenant_id;
      projection_name = "investigation-runs";
      last_cursor = head.cursor;
      last_event_hash = head.record_hash;
      version = next_version (get key s.projection_checkpoints);
    } in
    (
      ok checkpoint,
      record s {
        runs = runs;
        projection_checkpoints = put key checkpoint s.projection_checkpoints;
      },
    )

-- `verify_run_integrity` places each of the run's events in the tenant's chain by its cursor.
nth : List ApplicationEvent → ℕ → Option ApplicationEvent
nth [] i = none
nth (e ∷ es) zero = some e
nth (e ∷ es) (suc i) = nth es i

hash_or_zero : Option ApplicationEvent → String
hash_or_zero none = zero_hash
hash_or_zero (some e) = e.record_hash

-- `_ZERO_HASH` at the first cursor, and else the hash of the event in front
previous_tenant_hash : List ApplicationEvent → ℕ → String
unfolding nth hash_or_zero
previous_tenant_hash chain cursor =
    if nat_beq cursor 1 then zero_hash else hash_or_zero (nth chain (cursor - 2))

succeeds : Option ApplicationEvent → String → Bool
succeeds none hash = true
succeeds (some successor) hash = successor.tenant_previous_hash == hash

-- The event behind an event names its hash; of the last event the tenant's head does.
is_followed : List ApplicationEvent → TenantHead → ApplicationEvent → Bool
unfolding nth succeeds
is_followed chain head event =
    if ltb event.tenant_cursor (length chain)
    then succeeds (nth chain event.tenant_cursor) event.record_hash
    else head.record_hash == event.record_hash

same_head : Option AggregateHead → Option AggregateHead → Bool
same_head (some stored) (some scanned) =
    nat_beq stored.sequence scanned.sequence && stored.record_hash == scanned.record_hash
same_head _ _ = false

module _ (rt : Runtime) where
  -- The hash that an event must have behind the given hashes.
  unfoldable pub expected_hash : ApplicationEvent → String → String → String
  expected_hash event aggregate_hash tenant_hash = material_hash rt (
      event_material rt event.tenant_id event.aggregate_type event.aggregate_id
        event.aggregate_sequence event.tenant_cursor event.draft aggregate_hash tenant_hash)

  -- The test of `verify_integrity`, read the other way round: what an accepted event satisfies.
  unfoldable pub is_accepted : Scan → ApplicationEvent → Bool
  unfolding expected_hash
  is_accepted v event =
      let aggregate = scan_head v (event_key event) in
      nat_beq event.schema_version 1
      && (not (contains event.event_id v.seen)
          && (nat_beq event.aggregate_sequence (aggregate.sequence + 1)
              && (nat_beq event.tenant_cursor (v.tenant.cursor + 1)
                  && (event.aggregate_previous_hash == aggregate.record_hash
                      && (event.tenant_previous_hash == v.tenant.record_hash
                          && event.record_hash
                            == expected_hash event aggregate.record_hash v.tenant.record_hash)))))

  -- The loop of `verify_integrity`; `none` is `return False`.
  unfoldable pub scan_events : Scan → List ApplicationEvent → Option Scan
  scan_events v [] = some v
  scan_events v (event ∷ rest) =
      if is_accepted v event then scan_events (advance v event) rest else none

  unfoldable pub verify_integrity : Durability → String → Bool
  verify_integrity s tenant_id = elim (scan_events scan_start (tenant_events s tenant_id)) [
    | none ↦ false
    | some _ ↦ true
  ]

  unfoldable pub rebuild_from : String → String → List ApplicationEvent → Action Durability RunView
  unfolding stored_rebuild
  rebuild_from tenant_id run_id [] s = (err value_error, s)
  rebuild_from tenant_id run_id (event ∷ rest) s =
      stored_rebuild tenant_id run_id (reduce_runs rt none (event ∷ rest)) s

  unfoldable pub rebuild_run : String → String → Action Durability RunView
  unfolding rebuild_from
  rebuild_run tenant_id run_id s =
      if not (verify_integrity s tenant_id)
      then (err integrity_failure, s)
      else rebuild_from tenant_id run_id (run_events s tenant_id run_id) s

-- `{key: value for key, value in self._runs.items() if key[0] != tenant_id}`
unfoldable pub without_tenant :
    String → Dict (String × String) RunView → Dict (String × String) RunView
without_tenant tenant_id = select (λ entry. not (entry.0.0 == tenant_id))

module _ (rt : Runtime) where
  -- `_apply_projection_locked`: what raises has stored the projections in front of it
  unfoldable pub apply_projection :
      List ApplicationEvent
      → Dict (String × String) RunView
      → Result (Unit {0}) × Dict (String × String) RunView
  apply_projection [] runs = (ok tt, runs)
  apply_projection (event ∷ rest) runs =
      if not (event.aggregate_type == "investigation")
      then apply_projection rest runs
      else elim (reduce_run rt (get (event.tenant_id, event.aggregate_id) runs) event) [
        | err e ↦ (err e, runs)
        | ok view ↦ apply_projection rest (put (event.tenant_id, event.aggregate_id) view runs)
      ]

  unfoldable pub rebuild_run_projections : String → Action Durability ProjectionCheckpoint
  unfolding apply_projection write_checkpoint
  rebuild_run_projections tenant_id s =
      write_checkpoint tenant_id
        (apply_projection (tenant_events s tenant_id) (without_tenant tenant_id s.runs)) s

  -- The tests of one round, in their order.
  is_placed : List ApplicationEvent → TenantHead → AggregateHead → ApplicationEvent → Bool
  unfolding previous_tenant_hash is_followed expected_hash
  is_placed chain head aggregate event =
      let previous = previous_tenant_hash chain event.tenant_cursor in
      leb 1 event.tenant_cursor
      && leb event.tenant_cursor (length chain)
      && nat_beq event.schema_version 1
      && nat_beq event.aggregate_sequence (aggregate.sequence + 1)
      && event.aggregate_previous_hash == aggregate.record_hash
      && event.tenant_previous_hash == previous
      && event.record_hash == expected_hash rt event aggregate.record_hash previous
      && is_followed chain head event

  unfoldable pub scan_run :
      List ApplicationEvent
      → TenantHead
      → AggregateHead
      → List ApplicationEvent
      → Option AggregateHead
  unfolding is_placed
  scan_run chain head aggregate [] = some aggregate
  scan_run chain head aggregate (event ∷ rest) =
      if is_placed chain head aggregate event
      then scan_run chain head
          (record { sequence = event.aggregate_sequence; record_hash = event.record_hash }) rest
      else none

  unfoldable pub verify_run_integrity : Durability → String → String → ℕ → Result Bool
  unfolding scan_run same_head
  verify_run_integrity s tenant_id run_id maximum_events =
      if ltb maximum_events 1 || ltb 10000 maximum_events
      then err value_error
      else let chain = tenant_events s tenant_id in
        let selected = run_events s tenant_id run_id in
        ok (
          if nat_beq (length selected) 0 || ltb maximum_events (length selected)
          then false
          else same_head (get (tenant_id, ("investigation", run_id)) s.aggregate_heads)
              (scan_run chain (tenant_head s tenant_id) no_aggregate selected))
