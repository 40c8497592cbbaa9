-- ===== src/Durability/Reachable.antt =====
-- The stores that the methods of `InMemoryDurability` lead to, from an empty one.
use aegis_framework_platform.Base.{
  or_raise, String, ℕ, ◌≡◌, refl, sym, ◌∙◌, ap, Bool, true, Bool-cases, inl, inr, ◌||◌, List, [],
  ◌∷◌, some, none, Option, string_eq, pair_eq, ltb, leb, ◌==◌, if◌then◌else◌, Result, ok, err,
  value_error,
}
use aegis_framework_platform.Base.Dict.{Dict, get, put, get-put_same}
use aegis_framework_platform.Runtime.{Runtime}
use aegis_framework_platform.Durability.{
  Durability, init, DeliveryClaim, DeliveryStatus, pending, delivered, dead_letter,
  max_delivery_attempts, RunView, ApplicationEvent,
}
use aegis_framework_platform.Durability.Reduce.{reduce_runs}
use aegis_framework_platform.Durability.Append.{Batch, append}
use aegis_framework_platform.Durability.Verify.{
  verify_integrity, run_events, rebuild_from, rebuild_run, stored_rebuild,
}
use aegis_framework_platform.Durability.Commands.{
  IdentityContext, InvestigationRequest, SignalCommand,
}
use aegis_framework_platform.Durability.Commands.Accept.{accept_run}
use aegis_framework_platform.Durability.Commands.Transition.{Transition, record_transition}
use aegis_framework_platform.Durability.Commands.Signal.{accept_signal}
use aegis_framework_platform.Durability.Outbox.{
  claim_outbox, update_claim, settle, holds, claim_key, complete_outbox, fail_outbox,
}
use aegis_framework_platform.Durability.Invariant.{
  IsConsistent, IsConsistent-same, init-IsConsistent,
}
use aegis_framework_platform.Durability.Invariant.Projects.{reduce_runs-ne_none}
use aegis_framework_platform.Durability.Invariant.Preserved.{IsCurrent, append-IsConsistent}
use aegis_framework_platform.Durability.Invariant.Commanded.{
  accept_run-IsConsistent, record_transition-IsConsistent, accept_signal-IsConsistent,
}
use aegis_framework_platform.Durability.Lifecycle.Safety.{
  any_event, needs_cancel, cancelled_needs_request,
}

-- The methods that write; each call holds the lock, so that a run of the program is a sequence
-- of them.
pub data LedgerStep (rt : Runtime) (s : Durability) : Durability → Type 0 where
  appended : (b : Batch) → IsCurrent b → LedgerStep rt s (append rt b s).1
  accepted :
      (identity : IdentityContext) (request : InvestigationRequest) (wait_for_signal : Bool)
      (now : ℕ)
      → LedgerStep rt s (accept_run rt identity request wait_for_signal now s).1
  recorded : (t : Transition) (now : ℕ) → LedgerStep rt s (record_transition rt t now s).1
  signalled :
      (identity : IdentityContext) (command : SignalCommand) (m n : ℕ)
      → LedgerStep rt s (accept_signal rt identity command m n s).1
  leased :
      (worker_ref : String) (claim_until : ℕ) (tenant_id : String) (now limit : ℕ)
      → LedgerStep rt s (claim_outbox rt worker_ref claim_until tenant_id now limit s).1
  completed_claim : (c : DeliveryClaim) → LedgerStep rt s (complete_outbox c s).1
  failed_claim :
      (c : DeliveryClaim) (code : String) (retry_at : ℕ) (permanent : Bool)
      → LedgerStep rt s (fail_outbox c code retry_at permanent s).1
  rebuilt : (tenant_id run_id : String) → LedgerStep rt s (rebuild_run rt tenant_id run_id s).1

pub data LedgerReach (rt : Runtime) : Durability → Type 0 where
  start : LedgerReach rt init
  after : {s t : Durability} → LedgerReach rt s → LedgerStep rt s t → LedgerReach rt t

module _ (rt : Runtime) where
  claim_outbox-IsConsistent :
      (w : String) (u : ℕ) (tenant_id : String) (now limit : ℕ) (s : Durability)
      → IsConsistent rt s
      → IsConsistent rt (claim_outbox rt w u tenant_id now limit s).1
  unfolding claim_outbox
  claim_outbox-IsConsistent w u tenant_id now limit s h =
      elim (Bool-cases (ltb limit 1 || ltb 100 limit || leb u now)) [
        | inl out ↦ rw out h
        | inr within ↦ rw within (IsConsistent-same rt s s.idempotency _ h)
      ]

  settle-IsConsistent :
      (c : DeliveryClaim) (status : DeliveryStatus) (code : Option String) (retry : Option ℕ)
      (s : Durability)
      → IsConsistent rt s
      → IsConsistent rt (update_claim c status code retry s).1
  unfolding update_claim settle
  settle-IsConsistent c status code retry s h = by_record (get (claim_key c) s.deliveries)
    where
      by_record : (o : _) → IsConsistent rt (settle c status code retry o s).1
      by_record none = h
      by_record (some r) = elim (Bool-cases (holds c r)) [
        | inr lost ↦ rw lost h
        | inl held ↦ rw held (IsConsistent-same rt s s.idempotency _ h)
      ]

  module _ (s : Durability) (h : IsConsistent rt s) where
    -- The chain of every tenant verifies.
    IsConsistent-verifies : (tenant_id : String) → verify_integrity rt s tenant_id ≡ true
    unfolding verify_integrity
    IsConsistent-verifies tenant_id = rw ((h.linked tenant_id).scanned, verify_integrity) refl

    -- What `rebuild_run` returns and how it leaves the views.
    abbrev pub Rebuilt : String → String → Option RunView → Result RunView × Durability → Type 0
    Rebuilt tenant_id run_id none r = r ≡ (err value_error, s)
    Rebuilt tenant_id run_id (some view) r =
        r ≡ (ok view, record s { runs = put (tenant_id, run_id) view s.runs })

    rebuild_from-Rebuilt :
        (tenant_id run_id : String) (events : List ApplicationEvent) (stored : Option RunView)
        → reduce_runs rt none events ≡ ok stored
        → Rebuilt tenant_id run_id stored (rebuild_from rt tenant_id run_id events s)
    unfolding rebuild_from reduce_runs stored_rebuild
    rebuild_from-Rebuilt tenant_id run_id [] none e = refl
    rebuild_from-Rebuilt tenant_id run_id [] (some view) e = cc
    rebuild_from-Rebuilt tenant_id run_id (event ∷ rest) none e =
        absurd (reduce_runs-ne_none rt none event rest e)
    rebuild_from-Rebuilt tenant_id run_id (event ∷ rest) (some view) e =
        unfold reduce_runs in rw e refl

    rebuild_run-Rebuilt :
        (tenant_id run_id : String)
        → Rebuilt tenant_id run_id
            (get (tenant_id, run_id) s.runs)
            (rebuild_run rt tenant_id run_id s)
    unfolding rebuild_run
    rebuild_run-Rebuilt tenant_id run_id =
        rw (IsConsistent-verifies tenant_id, if◌then◌else◌)
          (rebuild_from-Rebuilt tenant_id run_id (run_events s tenant_id run_id) _
            (h.projected.reduced tenant_id run_id))

    -- Rebuilding returns what is stored and changes no lookup.
    abbrev pub IsUnchangedRebuild : String → String → Result RunView × Durability → Type 0
    IsUnchangedRebuild tenant_id run_id r =
        (r.0 ≡ or_raise (get (tenant_id, run_id) s.runs) value_error)
        × ((key : String × String) → get key r.1.runs ≡ get key s.runs)

    IsConsistent-rebuild :
        (tenant_id run_id : String)
        → IsUnchangedRebuild tenant_id run_id (rebuild_run rt tenant_id run_id s)
    unfolding or_raise
    IsConsistent-rebuild tenant_id run_id =
        by_stored (get (tenant_id, run_id) s.runs) refl (rebuild_run-Rebuilt tenant_id run_id)
      where
        by_stored :
            (stored : Option RunView)
            → get (tenant_id, run_id) s.runs ≡ stored
            → Rebuilt tenant_id run_id stored (rebuild_run rt tenant_id run_id s)
            → IsUnchangedRebuild tenant_id run_id (rebuild_run rt tenant_id run_id s)
        by_stored none f e = rw (e, f) (refl, λ key. refl)
        by_stored (some view) f e =
            rw (e, f) (refl, λ key. get-put_same (tenant_id, run_id) key view s.runs f)

  rebuild_run-IsConsistent :
      (s : Durability) (tenant_id run_id : String)
      → IsConsistent rt s
      → IsConsistent rt (rebuild_run rt tenant_id run_id s).1
  rebuild_run-IsConsistent s tenant_id run_id h =
      by_stored (get (tenant_id, run_id) s.runs) refl (rebuild_run-Rebuilt s h tenant_id run_id)
    where
      same_views :
          (runs : Dict (String × String) RunView)
          → ((key : String × String) → get key runs ≡ get key s.runs)
          → IsConsistent rt (record s { runs = runs })
      same_views runs same = record {
        linked = λ tenant_id.
            let l = h.linked tenant_id in
            record {
              scan = l.scan;
              scanned = l.scanned;
              same_tenant = l.same_tenant;
              same_heads = l.same_heads;
              same_seen = l.same_seen;
            };
        projected = record { reduced = λ t r. h.projected.reduced t r ∙ ap ok (sym (same (t, r))) };
      }

      by_stored :
          (stored : Option RunView)
          → get (tenant_id, run_id) s.runs ≡ stored
          → Rebuilt s h tenant_id run_id stored (rebuild_run rt tenant_id run_id s)
          → IsConsistent rt (rebuild_run rt tenant_id run_id s).1
      by_stored none f e = rw e h
      by_stored (some view) f e =
          rw e (same_views _ (λ key. get-put_same (tenant_id, run_id) key view s.runs f))

  LedgerStep-IsConsistent :
      (s t : Durability) → IsConsistent rt s → LedgerStep rt s t → IsConsistent rt t
  unfolding complete_outbox fail_outbox
  LedgerStep-IsConsistent s _ h (appended b current) = append-IsConsistent rt b s current h
  LedgerStep-IsConsistent s _ h (accepted identity request wait now) =
      accept_run-IsConsistent rt identity request wait now s h
  LedgerStep-IsConsistent s _ h (recorded t now) = record_transition-IsConsistent rt t now s h
  LedgerStep-IsConsistent s _ h (signalled identity command m n) =
      accept_signal-IsConsistent rt identity command m n s h
  LedgerStep-IsConsistent s _ h (leased w u tenant_id now limit) =
      claim_outbox-IsConsistent w u tenant_id now limit s h
  LedgerStep-IsConsistent s _ h (completed_claim c) = settle-IsConsistent c delivered none none s h
  LedgerStep-IsConsistent s _ h (failed_claim c code retry_at permanent) =
      settle-IsConsistent c
        (if permanent || leb max_delivery_attempts c.attempt then dead_letter else pending)
        (some code) (some retry_at) s h
  LedgerStep-IsConsistent s _ h (rebuilt tenant_id run_id) =
      rebuild_run-IsConsistent s tenant_id run_id h

  LedgerReach-IsConsistent : (s : Durability) → LedgerReach rt s → IsConsistent rt s
  LedgerReach-IsConsistent _ start = init-IsConsistent rt
  LedgerReach-IsConsistent s (after {s = r} reach step) =
      LedgerStep-IsConsistent r s (LedgerReach-IsConsistent r reach) step

  -- Whatever sequence of appends of schema version 1, run requests, transitions, signals, outbox
  -- calls and run rebuilds led to the store, from an empty one, the hash chain of every tenant
  -- verifies.
  pub reachable_verifies :
      (s : Durability) (tenant_id : String)
      → LedgerReach rt s
      → verify_integrity rt s tenant_id ≡ true
  reachable_verifies s tenant_id reach =
      IsConsistent-verifies s (LedgerReach-IsConsistent s reach) tenant_id

  -- In a store that appends of schema version 1, run requests, transitions, signals, outbox calls
  -- and run rebuilds have led to, from an empty one, the events of a run reduce to its stored view,
  -- and to none where none is stored.
  pub reachable_projects :
      (s : Durability) (tenant_id run_id : String)
      → LedgerReach rt s
      → reduce_runs rt none (run_events s tenant_id run_id) ≡ ok (get (tenant_id, run_id) s.runs)
  reachable_projects s tenant_id run_id reach =
      (LedgerReach-IsConsistent s reach).projected.reduced tenant_id run_id

  -- In a store that appends of schema version 1, run requests, transitions, signals, outbox calls
  -- and run rebuilds have led to, from an empty one, rebuilding a run returns the view that is
  -- stored, or raises ValueError where none is, and every view reads as before.
  pub reachable_rebuild :
      (s : Durability) (tenant_id run_id : String)
      → LedgerReach rt s
      → let outcome = rebuild_run rt tenant_id run_id s in
        (outcome.0 ≡ or_raise (get (tenant_id, run_id) s.runs) value_error)
        × ((key : String × String) → get key outcome.1.runs ≡ get key s.runs)
  reachable_rebuild s tenant_id run_id reach =
      IsConsistent-rebuild s (LedgerReach-IsConsistent s reach) tenant_id run_id

  -- In a store that appends of schema version 1, run requests, transitions, signals, outbox calls
  -- and run rebuilds have led to, from an empty one, a run whose stored view shows a cancellation,
  -- requested or done, has recorded the request for it.
  pub reachable_cancelled :
      (s : Durability) (tenant_id run_id : String) (view : RunView)
      → LedgerReach rt s
      → get (tenant_id, run_id) s.runs ≡ some view
      → needs_cancel view.status ≡ true
      → any_event (λ t. t == "investigation.cancel_requested") (run_events s tenant_id run_id)
        ≡ true
  reachable_cancelled s tenant_id run_id view reach stored shown =
      cancelled_needs_request rt (run_events s tenant_id run_id) view
        (reachable_projects s tenant_id run_id reach ∙ ap ok stored) shown
