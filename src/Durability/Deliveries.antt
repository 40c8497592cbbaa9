-- ===== src/Durability/Deliveries.antt =====
-- The deliveries of the stores that the methods of `InMemoryDurability` lead to.
use aegis_framework_platform.Base.{
  subst, String, ℕ, Bool, ◌||◌, ◌&&◌, Bool-cases, inl, inr, List, [], ◌∷◌, some, none, Option,
  string_eq, pair_eq, nat_beq, ltb, leb, length, contains, if◌then◌else◌, Result, ok, err,
}
use aegis_framework_platform.Base.Dict.{Dict, get}
use aegis_framework_platform.Runtime.{Runtime}
use aegis_framework_platform.Durability.{
  Durability, ApplicationEvent, DeliveryRecord, IdempotencyRecord, RunView, pending, delivered,
  dead_letter, max_delivery_attempts, max_events_per_append, max_resume_commands,
}
use aegis_framework_platform.Durability.Append.{
  Batch, batch_events, commit_append, append_locked, append,
}
use aegis_framework_platform.Durability.Verify.{
  verify_integrity, run_events, rebuild_from, stored_rebuild, rebuild_run,
}
use aegis_framework_platform.Durability.Reduce.{reduce_runs}
use aegis_framework_platform.Durability.Commands.{
  IdentityContext, InvestigationRequest, SignalCommand, run_fingerprint, run_batch,
}
use aegis_framework_platform.Durability.Commands.Accept.{
  replay_run, finish_run, start_run, accept_known, accept_run,
}
use aegis_framework_platform.Durability.Commands.Transition.{
  Transition, transition_id, transition_batch, view_after, append_for, transition_of,
  record_transition,
}
use aegis_framework_platform.Durability.Commands.Signal.{
  is_resume_command, resume_count, signal_batch, signal_new, replay_signal, signal_known, signal_of,
  accept_signal,
}
use aegis_framework_platform.Durability.Outbox.{complete_outbox, fail_outbox}
use aegis_framework_platform.Durability.Outbox.Wellformed.{
  IsTable, put_outbox-IsTable, put_inbox-IsTable, claim_outbox-IsTable, update_claim-IsTable,
}
use aegis_framework_platform.Durability.Invariant.{append_locked-cases}
use aegis_framework_platform.Durability.Invariant.Commanded.{replay_signal-same}
use aegis_framework_platform.Durability.Reachable.{
  LedgerStep, LedgerReach, start, after, appended, accepted, recorded, signalled, leased,
  completed_claim, failed_claim, rebuilt,
}

abbrev HasTable : Durability → Type 0
HasTable s = IsTable s.deliveries

module _ (rt : Runtime) where
  committed-IsTable :
      (b : Batch) (events : List ApplicationEvent) (projected : Dict (String × String) RunView)
      (s : Durability)
      → HasTable s
      → HasTable (commit_append b events projected s).1
  unfolding commit_append
  committed-IsTable b [] projected s h = h
  committed-IsTable b (first ∷ rest) projected s h =
      put_inbox-IsTable b.tenant_id _ b.inbox _
        (put_outbox-IsTable b.tenant_id b.outbox s.deliveries h)

  append_locked-IsTable :
      (b : Batch) (s : Durability) → HasTable s → HasTable (append_locked rt b s).1
  append_locked-IsTable b s h =
      append_locked-cases rt (λ q. HasTable q.1) b s (λ e. h)
        λ projected admitted accepted. committed-IsTable b (batch_events rt b s) projected s h

  append-IsTable : (b : Batch) (s : Durability) → HasTable s → HasTable (append rt b s).1
  unfolding append
  append-IsTable b s h =
      elim (Bool-cases
        (nat_beq (length b.drafts) 0 || ltb max_events_per_append (length b.drafts))) [
          | inl out ↦ rw out h
          | inr within ↦ rw within (append_locked-IsTable b s h)
        ]

  append_for-IsTable :
      (key : String × String) (r : Result Batch) (s : Durability)
      → HasTable s
      → HasTable (append_for rt key r s).1
  unfolding append_for
  append_for-IsTable key (err e) s h = h
  append_for-IsTable key (ok b) s h = kept (append_locked rt b s) (append_locked-IsTable b s h)
    where
      kept :
          (r : Result (List ApplicationEvent) × Durability)
          → HasTable r.1
          → HasTable (view_after key r).1
      kept (ok events, t) k = k
      kept (err e, t) k = k

  start_run-IsTable :
      (key : String × String) (fingerprint run_id : String) (r : Result Batch) (s : Durability)
      → HasTable s
      → HasTable (start_run rt key fingerprint run_id r s).1
  unfolding start_run
  start_run-IsTable key fingerprint run_id (err e) s h = h
  start_run-IsTable key fingerprint run_id (ok b) s h = kept _ (append_locked-IsTable b _ h)
    where
      kept :
          (r : Result (List ApplicationEvent) × Durability)
          → HasTable r.1
          → HasTable (finish_run key (key.0, run_id) r).1
      kept (ok events, t) k = k
      kept (err e, t) k = k

  accept_run-IsTable :
      (identity : IdentityContext) (request : InvestigationRequest) (w : Bool) (now : ℕ)
      (s : Durability)
      → HasTable s
      → HasTable (accept_run rt identity request w now s).1
  unfolding accept_run
  accept_run-IsTable identity request w now s h =
      by_record (get (identity.tenant_id, identity.request_id) s.idempotency)
    where
      by_record :
          (o : Option IdempotencyRecord) → HasTable (accept_known rt identity request w now o s).1
      by_record none =
          unfold accept_known in start_run-IsTable _ _ _ (run_batch rt identity request w now) s h
      by_record (some existing) =
          unfold accept_known replay_run in
          elim (Bool-cases (string_eq.beq existing.fingerprint (run_fingerprint rt request w))) [
            | inl same ↦ rw same h
            | inr other ↦ rw other h
          ]

  record_transition-IsTable :
      (t : Transition) (now : ℕ) (s : Durability)
      → HasTable s
      → HasTable (record_transition rt t now s).1
  unfolding record_transition
  record_transition-IsTable t now s h = by_view (get (t.tenant_id, t.run_id) s.runs)
    where
      by_view : (o : Option RunView) → HasTable (transition_of rt t now o s).1
      by_view none = unfold transition_of in h
      by_view (some current) =
          unfold transition_of in
          elim (Bool-cases (contains (t.tenant_id, transition_id rt t) s.event_ids)) [
            | inl known ↦ rw known h
            | inr new ↦
                rw new (
                  append_for-IsTable (t.tenant_id, t.run_id) (transition_batch rt t now current) s
                    h)
          ]

  replay_signal-IsTable :
      (command : SignalCommand) (current : RunView) (existing : DeliveryRecord) (s : Durability)
      → HasTable s
      → HasTable (replay_signal command current existing s).1
  replay_signal-IsTable command current existing s h =
      subst (λ (t : Durability). HasTable t) (replay_signal-same command current existing s) h

  accept_signal-IsTable :
      (identity : IdentityContext) (command : SignalCommand) (m n : ℕ) (s : Durability)
      → HasTable s
      → HasTable (accept_signal rt identity command m n s).1
  unfolding accept_signal
  accept_signal-IsTable identity command m n s h =
      by_view (get (identity.tenant_id, command.run_id) s.runs)
    where
      fresh : (current : RunView) → HasTable (signal_new rt identity command m n current s).1
      fresh current =
          unfold signal_new in
          elim (Bool-cases (
            is_resume_command command.command_type
            && leb max_resume_commands (resume_count s identity.tenant_id command.run_id))) [
              | inl full ↦ rw full h
              | inr room ↦ rw room (
                  append_for-IsTable (identity.tenant_id, command.run_id)
                    (signal_batch rt identity command m n current) s h)
            ]

      by_delivery :
          (current : RunView) (o : Option DeliveryRecord)
          → HasTable (signal_known rt identity command m n current o s).1
      by_delivery current none = unfold signal_known in fresh current
      by_delivery current (some existing) =
          unfold signal_known in replay_signal-IsTable command current existing s h

      by_view : (o : Option RunView) → HasTable (signal_of rt identity command m n o s).1
      by_view none = unfold signal_of in h
      by_view (some current) =
          unfold signal_of in
          by_delivery current (get (identity.tenant_id, ("inbox", command.command_id)) s.deliveries)

  rebuild_run-IsTable :
      (tenant_id run_id : String) (s : Durability)
      → HasTable s
      → HasTable (rebuild_run rt tenant_id run_id s).1
  unfolding rebuild_run
  rebuild_run-IsTable tenant_id run_id s h = elim (Bool-cases (verify_integrity rt s tenant_id)) [
    | inr broken ↦ rw broken h
    | inl verified ↦ rw verified (by_events (run_events s tenant_id run_id))
  ]
    where
      by_result : (r : Result (Option RunView)) → HasTable (stored_rebuild tenant_id run_id r s).1
      by_result (err e) = unfold stored_rebuild in h
      by_result (ok none) = unfold stored_rebuild in h
      by_result (ok (some view)) = unfold stored_rebuild in h

      by_events :
          (events : List ApplicationEvent) → HasTable (rebuild_from rt tenant_id run_id events s).1
      by_events [] = unfold rebuild_from in h
      by_events (event ∷ rest) =
          unfold rebuild_from in by_result (reduce_runs rt none (event ∷ rest))

  LedgerStep-IsTable : (s t : Durability) → HasTable s → LedgerStep rt s t → HasTable t
  unfolding complete_outbox fail_outbox
  LedgerStep-IsTable s _ h (appended b current) = append-IsTable b s h
  LedgerStep-IsTable s _ h (accepted identity request wait now) =
      accept_run-IsTable identity request wait now s h
  LedgerStep-IsTable s _ h (recorded t now) = record_transition-IsTable t now s h
  LedgerStep-IsTable s _ h (signalled identity command m n) =
      accept_signal-IsTable identity command m n s h
  LedgerStep-IsTable s _ h (leased w u tenant_id now limit) =
      claim_outbox-IsTable rt w u tenant_id now limit s h
  LedgerStep-IsTable s _ h (completed_claim c) = update_claim-IsTable c delivered none none s h
  LedgerStep-IsTable s _ h (failed_claim c code retry_at permanent) =
      update_claim-IsTable c
        (if permanent || leb max_delivery_attempts c.attempt then dead_letter else pending)
        (some code) (some retry_at) s h
  LedgerStep-IsTable s _ h (rebuilt tenant_id run_id) = rebuild_run-IsTable tenant_id run_id s h

  -- In a store that appends of schema version 1, run requests, transitions, signals, outbox calls
  -- and run rebuilds have led to, from an empty one, the deliveries are a well-formed table: each
  -- stands once, under its own key, and none has more than the permitted attempts.
  pub reachable-IsTable : (s : Durability) → LedgerReach rt s → IsTable s.deliveries
  reachable-IsTable _ start = record { unique = tt; entries = tt }
  reachable-IsTable s (after {s = r} reach step) =
      LedgerStep-IsTable r s (reachable-IsTable r reach) step
