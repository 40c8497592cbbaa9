-- ===== src/Durability/Invariant/Commanded.antt =====
-- The invariant of the store under `accept_run`, `record_transition` and `accept_signal`.
use aegis_framework_platform.Base.{
  String, ◌≡◌, refl, List, ◌<◌, ℕ, length, Result, ok, err, arith, inl, inr, Bool-cases, Bool,
  Option, none, some, contains, string_eq, pair_eq, subst, ◌&&◌, leb,
}
use aegis_framework_platform.Base.Dict.{get, put, pop}
use aegis_framework_platform.Runtime.{Runtime}
use aegis_framework_platform.Durability.{
  max_resume_commands, DeliveryRecord, Durability, EventDraft, ApplicationEvent, IdempotencyRecord,
  RunView,
}
use aegis_framework_platform.Durability.Append.{Batch, append_locked}
use aegis_framework_platform.Durability.Commands.{
  IdentityContext, InvestigationRequest, SignalCommand, event_draft, run_fingerprint, run_batch,
}
use aegis_framework_platform.Durability.Commands.Accept.{
  finish_run, start_run, replay_run, accept_known, accept_run,
}
use aegis_framework_platform.Durability.Commands.Transition.{
  Transition, view_after, append_for, transition_id, transition_batch, transition_of,
  record_transition,
}
use aegis_framework_platform.Durability.Commands.Signal.{
  is_resume_command, resume_count, signal_batch, signal_new, replay_signal, signal_known, signal_of,
  accept_signal,
}
use aegis_framework_platform.Durability.Invariant.{IsConsistent, IsConsistent-same}
use aegis_framework_platform.Durability.Invariant.Preserved.{IsCurrent, append_locked-IsConsistent}

pub replay_signal-same :
    (command : SignalCommand) (current : RunView) (existing : DeliveryRecord) (s : Durability)
    → s ≡ (replay_signal command current existing s).1
unfolding replay_signal
replay_signal-same command current existing s = ground arith

-- A batch of the commands: one event or more, all of the current schema.
abbrev pub IsCommand : Batch → Type 0
IsCommand b = IsCurrent b × (0 < length b.drafts)

abbrev pub OkIsCommand : Result Batch → Type 0
OkIsCommand (ok b) = IsCommand b
OkIsCommand (err e) = Unit

module _ (rt : Runtime) where
  event_draft-version : (d d' : EventDraft) → event_draft rt d ≡ ok d' → d ≡ d'
  unfolding event_draft
  event_draft-version d d' h = ground arith

  pub run_batch-IsCommand :
      (identity : IdentityContext) (request : InvestigationRequest) (w : Bool) (now : ℕ) (b : Batch)
      → run_batch rt identity request w now ≡ ok b
      → IsCommand b
  unfolding run_batch
  run_batch-IsCommand identity request w now b h = ground arith

  pub transition_batch-IsCommand :
      (t : Transition) (now : ℕ) (current : RunView) (b : Batch)
      → transition_batch rt t now current ≡ ok b
      → IsCommand b
  unfolding transition_batch
  transition_batch-IsCommand t now current b h = ground arith

  pub signal_batch-IsCommand :
      (identity : IdentityContext) (command : SignalCommand) (m n : ℕ) (current : RunView)
      (b : Batch)
      → signal_batch rt identity command m n current ≡ ok b
      → IsCommand b
  unfolding signal_batch
  signal_batch-IsCommand identity command m n current b h = ground arith

  append_for-IsConsistent :
      (key : String × String) (r : Result Batch) (s : Durability)
      → ((b : Batch) → r ≡ ok b → IsCommand b)
      → IsConsistent rt s
      → IsConsistent rt (append_for rt key r s).1
  unfolding append_for
  append_for-IsConsistent key (err e) s command h = h
  append_for-IsConsistent key (ok b) s command h =
      view_after-keeps (append_locked rt b s)
        (append_locked-IsConsistent rt b s (command b refl).0 (command b refl).1 h)
    where
      view_after-keeps :
          (r : Result (List ApplicationEvent) × Durability)
          → IsConsistent rt r.1
          → IsConsistent rt (view_after key r).1
      view_after-keeps (ok events, s') k = k
      view_after-keeps (err e, s') k = k

  start_run-IsConsistent :
      (key : String × String) (fingerprint run_id : String) (r : Result Batch) (s : Durability)
      → ((b : Batch) → r ≡ ok b → IsCommand b)
      → IsConsistent rt s
      → IsConsistent rt (start_run rt key fingerprint run_id r s).1
  unfolding start_run
  start_run-IsConsistent key fingerprint run_id (err e) s command h = h
  start_run-IsConsistent key fingerprint run_id (ok b) s command h = finish_run-keeps _ (
      append_locked-IsConsistent rt b _ (command b refl).0 (command b refl).1 (
        IsConsistent-same rt s
          (put key (record { fingerprint = fingerprint; run_id = run_id }) s.idempotency)
          s.deliveries h))
    where
      finish_run-keeps :
          (r : Result (List ApplicationEvent) × Durability)
          → IsConsistent rt r.1
          → IsConsistent rt (finish_run key (key.0, run_id) r).1
      finish_run-keeps (ok events, s') k = k
      finish_run-keeps (err e, s') k =
          IsConsistent-same rt s' (pop key s'.idempotency) s'.deliveries k

  -- A request, new or repeated, accepted or not, leaves a consistent store.
  pub accept_run-IsConsistent :
      (identity : IdentityContext) (request : InvestigationRequest) (w : Bool) (now : ℕ)
      (s : Durability)
      → IsConsistent rt s
      → IsConsistent rt (accept_run rt identity request w now s).1
  unfolding accept_run
  accept_run-IsConsistent identity request w now s h =
      by_record (get (identity.tenant_id, identity.request_id) s.idempotency)
    where
      replayed :
          (existing : IdempotencyRecord)
          → IsConsistent rt (accept_known rt identity request w now (some existing) s).1
      replayed existing =
          elim (Bool-cases (string_eq.beq existing.fingerprint (run_fingerprint rt request w))) [
            | inl same ↦ rw (same, replay_run) h
            | inr other ↦ rw (other, replay_run) h
          ]

      by_record :
          (o : Option IdempotencyRecord)
          → IsConsistent rt (accept_known rt identity request w now o s).1
      by_record (some existing) = replayed existing
      by_record none =
          start_run-IsConsistent (identity.tenant_id, identity.request_id) _ _
            (run_batch rt identity request w now) s
            (λ b e. run_batch-IsCommand identity request w now b e) h

  pub record_transition-IsConsistent :
      (t : Transition) (now : ℕ) (s : Durability)
      → IsConsistent rt s
      → IsConsistent rt (record_transition rt t now s).1
  unfolding record_transition
  record_transition-IsConsistent t now s h = by_view (get (t.tenant_id, t.run_id) s.runs)
    where
      by_view : (o : Option RunView) → IsConsistent rt (transition_of rt t now o s).1
      by_view none = h
      by_view (some current) =
          elim (Bool-cases (contains (t.tenant_id, transition_id rt t) s.event_ids)) [
            | inl known ↦ rw (known, transition_of) h
            | inr new ↦
                rw (new, transition_of)
                  (append_for-IsConsistent (t.tenant_id, t.run_id)
                    (transition_batch rt t now current) s
                    (λ b e. transition_batch-IsCommand t now current b e) h)
          ]

  -- A signal command, new or repeated, accepted or not, leaves a consistent store.
  pub accept_signal-IsConsistent :
      (identity : IdentityContext) (command : SignalCommand) (m n : ℕ) (s : Durability)
      → IsConsistent rt s
      → IsConsistent rt (accept_signal rt identity command m n s).1
  unfolding accept_signal
  accept_signal-IsConsistent identity command m n s h =
      by_view (get (identity.tenant_id, command.run_id) s.runs)
    where
      fresh : (current : RunView) → IsConsistent rt (signal_new rt identity command m n current s).1
      fresh current =
          elim (Bool-cases (
            is_resume_command command.command_type
            && leb max_resume_commands (resume_count s identity.tenant_id command.run_id))) [
              | inl full ↦ rw (full, signal_new) h
              | inr room ↦
                  rw (room, signal_new)
                    (append_for-IsConsistent (identity.tenant_id, command.run_id)
                      (signal_batch rt identity command m n current) s
                      (λ b e. signal_batch-IsCommand identity command m n current b e) h)
            ]

      by_delivery :
          (current : RunView) (o : Option DeliveryRecord)
          → IsConsistent rt (signal_known rt identity command m n current o s).1
      by_delivery current none = fresh current
      by_delivery current (some existing) =
          subst (λ t. IsConsistent rt t) (replay_signal-same command current existing s) h

      by_view : (o : Option RunView) → IsConsistent rt (signal_of rt identity command m n o s).1
      by_view none = h
      by_view (some current) =
          by_delivery current (get (identity.tenant_id, ("inbox", command.command_id)) s.deliveries)
