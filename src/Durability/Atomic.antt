-- ===== src/Durability/Atomic.antt =====
-- What `append` and `accept_run` of durability.py leave when they raise, and when they are called
-- again.
use aegis_framework_platform.Base.{
  String, ℕ, ◌<◌, ◌≡◌, refl, sym, ◌∙◌, subst, ◌≢◌, Bool, Bool-cases, inl, inr, ◌||◌, List, [], ◌∷◌,
  some, none, arith, string_eq, pair_eq, beq_refl, beq-eq_false, ltb, nat_beq, length, Result, ok,
  err, idempotency_conflict,
}
use aegis_framework_platform.Base.Dict.{Dict, get, put, pop, get-put_self, pop-put_new}
use aegis_framework_platform.Runtime.{Runtime}
use aegis_framework_platform.Durability.{
  Durability, ApplicationEvent, IdempotencyRecord, RunView, max_events_per_append,
}
use aegis_framework_platform.Durability.Append.{
  Batch, batch_events, commit_append, append_locked, append,
}
use aegis_framework_platform.Durability.Commands.{
  IdentityContext, InvestigationRequest, run_fingerprint, new_run_id, run_batch,
}
use aegis_framework_platform.Durability.Commands.Accept.{
  as_replayed, replay_of, replay_run, finish_run, start_run, accept_known, accept_run,
}
use aegis_framework_platform.Durability.Invariant.{append_locked-cases}
use aegis_framework_platform.Durability.Invariant.Preserved.{batch_events-cons}
use aegis_framework_platform.Durability.Invariant.Projects.{projected_run, batch_events-IsOfRun}
use aegis_framework_platform.Durability.Invariant.Commanded.{run_batch-IsCommand}

-- The outcome of a call that wrote nothing if it raised.
abbrev pub Unchanged : {A : Type 0} → Durability → Result A × Durability → Type 0
Unchanged s (ok a, s') = Unit
Unchanged s (err e, s') = s' ≡ s

-- The outcome of a call that stores a view under a key if it returns.
abbrev pub Stored : String × String → Result (List ApplicationEvent) × Durability → Type 0
Stored key (ok events, s') = (view : RunView) × (get key s'.runs ≡ some view)
Stored key (err e, s') = Unit

module _ (rt : Runtime) (b : Batch) (s : Durability) where
  pub append_locked-Unchanged : 0 < length b.drafts → Unchanged s (append_locked rt b s)
  unfolding commit_append
  append_locked-Unchanged p =
      append_locked-cases rt (Unchanged s) b s (λ e. refl)
        λ projected admitted accepted.
          let (first, rest, batch) = batch_events-cons rt b s p in rw batch tt

  -- An append that raises, for whatever reason, has written nothing.
  pub append-Unchanged : Unchanged s (append rt b s)
  unfolding append
  append-Unchanged =
      elim (Bool-cases
        (nat_beq (length b.drafts) 0 || ltb max_events_per_append (length b.drafts))) [
          | inl out ↦ rw out refl
          | inr within ↦ rw within (append_locked-Unchanged (ground arith))
        ]

  -- The command records are the commands' own.
  pub idempotency-append_locked : (append_locked rt b s).1.idempotency ≡ s.idempotency
  idempotency-append_locked =
      append_locked-cases rt (λ q. q.1.idempotency ≡ s.idempotency) b s (λ e. refl)
        λ projected admitted accepted. committed (batch_events rt b s) projected
    where
      committed :
          (events : List ApplicationEvent) (projected : Dict (String × String) RunView)
          → (commit_append b events projected s).1.idempotency ≡ s.idempotency
      committed [] projected = unfold commit_append in refl
      committed (e ∷ es) projected = unfold commit_append in refl

  -- The view of a run is stored when an append of its events returns.
  pub append_locked-Stored :
      0 < length b.drafts
      → b.aggregate_type ≡ "investigation"
      → Stored (b.tenant_id, b.aggregate_id) (append_locked rt b s)
  unfolding commit_append
  append_locked-Stored p is_run =
      append_locked-cases rt (Stored (b.tenant_id, b.aggregate_id)) b s (λ e. tt)
        λ projected admitted accepted.
          let key : String × String = (b.tenant_id, b.aggregate_id) in
          let (first, rest, batch) = batch_events-cons rt b s p in
          let (view, q, u) =
            projected_run rt b.tenant_id b.aggregate_id first rest s.runs projected
              (rw batch at (batch_events-IsOfRun rt b s is_run)) (rw batch at accepted) in
          rw batch (view, rw u (get-put_self key view s.runs))

-- The view that a run's command returns is the stored one.
module _ (rt : Runtime) (identity : IdentityContext) (request : InvestigationRequest)
    (wait_for_signal : Bool) where
  abbrev run_key : String × String
  run_key = (identity.tenant_id, new_run_id rt identity request)

  abbrev request_key : String × String
  request_key = (identity.tenant_id, identity.request_id)

  abbrev command_record : IdempotencyRecord
  command_record = record {
    fingerprint = run_fingerprint rt request wait_for_signal;
    run_id = new_run_id rt identity request;
  }

  -- What a new request comes to: nothing at all, or a stored view behind a command record.
  abbrev pub Accepted : Durability → Result RunView × Durability → Type 0
  Accepted s (err e, s') = s' ≡ s
  Accepted s (ok view, s') =
      (get run_key s'.runs ≡ some view) × (get request_key s'.idempotency ≡ some command_record)

  abbrev begun : Durability → Durability
  begun s = record s { idempotency = put request_key command_record s.idempotency }

  finish_run-Accepted :
      (s : Durability) (r : Result (List ApplicationEvent) × Durability)
      → get request_key s.idempotency ≡ none
      → Unchanged (begun s) r
      → Stored run_key r
      → r.1.idempotency ≡ put request_key command_record s.idempotency
      → Accepted s (finish_run request_key run_key r)
  unfolding finish_run
  finish_run-Accepted s (err e, s') new same stored kept =
      (λ i. record (same i) { idempotency = pop request_key (same i).idempotency })
      ∙ (λ i. record s { idempotency = pop-put_new request_key command_record s.idempotency new i })
  finish_run-Accepted s (ok events, s') new same (view, e) kept =
      rw e (e, rw kept (get-put_self request_key command_record s.idempotency))

  run_batch_key :
      (now : ℕ) (b : Batch)
      → run_batch rt identity request wait_for_signal now ≡ ok b
      → (b.aggregate_type ≡ "investigation") × (run_key ≡ (b.tenant_id, b.aggregate_id))
  unfolding run_batch
  run_batch_key now b h = ground arith

  start_run-Accepted :
      (s : Durability) (now : ℕ) (r : Result Batch)
      → run_batch rt identity request wait_for_signal now ≡ r
      → get request_key s.idempotency ≡ none
      → Accepted s (start_run rt request_key command_record.fingerprint command_record.run_id r s)
  unfolding start_run
  start_run-Accepted s now (err e) h new = refl
  start_run-Accepted s now (ok b) h new =
      let (is_run, key) = run_batch_key now b h in
      let size = (run_batch-IsCommand rt identity request wait_for_signal now b h).1 in
      finish_run-Accepted s (append_locked rt b (begun s)) new
        (append_locked-Unchanged rt b (begun s) size)
        (subst (λ k. Stored k (append_locked rt b (begun s))) (sym key)
          (append_locked-Stored rt b (begun s) size is_run))
        (idempotency-append_locked rt b (begun s))

  -- A new request either raises and leaves the store as it was, also its record of requests, or it
  -- returns the stored view of the run and has recorded the request.
  pub accept_run-Accepted :
      (s : Durability) (now : ℕ)
      → get request_key s.idempotency ≡ none
      → Accepted s (accept_run rt identity request wait_for_signal now s)
  unfolding accept_run
  accept_run-Accepted s now new =
      rw (new, accept_known)
        (start_run-Accepted s now (run_batch rt identity request wait_for_signal now) refl new)

  -- A request that is sent again returns the view that is stored by then, marked as replayed,
  -- and writes nothing.
  pub accept_run_again :
      (s : Durability) (now : ℕ) (view : RunView)
      → get request_key s.idempotency ≡ some command_record
      → get run_key s.runs ≡ some view
      → accept_run rt identity request wait_for_signal now s ≡ (ok (as_replayed view), s)
  unfolding accept_run accept_known replay_run
  accept_run_again s now view h k =
      rw (h, accept_known)
        (rw (beq_refl ⦃e = string_eq⦄ command_record.fingerprint, replay_run) (rw (k, replay_of)))

  known_request :
      (s : Durability) (now : ℕ) (view : RunView)
      → get request_key s.idempotency ≡ none
      → (accept_run rt identity request wait_for_signal now s).0 ≡ ok view
      → let s' = (accept_run rt identity request wait_for_signal now s).1 in
        (get run_key s'.runs ≡ some view) × (get request_key s'.idempotency ≡ some command_record)
  known_request s now view new =
      by_outcome (accept_run rt identity request wait_for_signal now s)
        (accept_run-Accepted s now new)
    where
      by_outcome :
          (r : Result RunView × Durability)
          → Accepted s r
          → r.0 ≡ ok view
          → (get run_key r.1.runs ≡ some view)
            × (get request_key r.1.idempotency ≡ some command_record)
      by_outcome (ok v, s') (a, b) e = (a ∙ cc, b)
      by_outcome (err x, s') a e = cc

  -- After a new request has returned a view, the same request, at any instant, returns that view
  -- marked as replayed, and one with another fingerprint under the same request id is refused as a
  -- conflict; neither writes anything.
  pub accept_run_twice :
      (s : Durability) (now : ℕ) (view : RunView)
      → get request_key s.idempotency ≡ none
      → (accept_run rt identity request wait_for_signal now s).0 ≡ ok view
      → let s' = (accept_run rt identity request wait_for_signal now s).1 in
        ((now' : ℕ)
          → accept_run rt identity request wait_for_signal now' s' ≡ (ok (as_replayed view), s'))
        × ((other : InvestigationRequest) (wait' : Bool) (now' : ℕ)
            → command_record.fingerprint ≢ run_fingerprint rt other wait'
            → accept_run rt identity other wait' now' s' ≡ (err idempotency_conflict, s'))
  accept_run_twice s now view new e =
      let (stored, recorded) = known_request s now view new e in
      (
        λ now'. accept_run_again _ now' view recorded stored,
        λ other wait' now' ne.
            unfold accept_run in
            rw (recorded, accept_known)
              (rw (
                beq-eq_false ⦃e = string_eq⦄ command_record.fingerprint
                    (run_fingerprint rt other wait') ne,
                replay_run,
              )),
      )
