-- ===== src/Durability/Lifecycle.antt =====
-- The life of a run: what `reduce_run` can show of any list of recorded events.
pub mod Safety
mod Tests
use aegis_framework_platform.Base.{
  or_raise, subst, String, ℕ, suc, ◌+◌, ◌≡◌, refl, sym, ap, ◌∙◌, ◌≢◌, ◌⊎◌, inl, inr, Bool, true,
  false, ◌||◌, ◌==◌, List, [], ◌∷◌, some, none, Option, arith, string_eq, length, Result, ok, err,
  integrity_failure, >>=-eq-ok, if◌then◌else◌, Option-cases, Bool-cases,
}
use mathlib.Core.Option.{some-injective}
use aegis_framework_platform.Base.Dict.{get}
use aegis_framework_platform.Runtime.{Json, null, text, Runtime}
use aegis_framework_platform.Durability.{
  ApplicationEvent, RunView, RunStatus, queued, running, waiting, completed, failed,
  cancel_requested, cancelled, timed_out,
}
use aegis_framework_platform.Durability.Reduce.{
  status_by_event, allowed, first_view, validate_run_transition, event_status, failure_code_of,
  next_view, view_from, reduce_run, reduce_runs,
}

abbrev pub is_terminal : RunStatus → Bool
is_terminal completed = true
is_terminal failed = true
is_terminal cancelled = true
is_terminal timed_out = true
is_terminal _ = false

allowed-terminal : (p c : RunStatus) → is_terminal p ≡ true → allowed p c ≡ false
unfolding allowed
allowed-terminal completed c h = refl
allowed-terminal failed c h = refl
allowed-terminal cancelled c h = refl
allowed-terminal timed_out c h = refl
allowed-terminal _ c h = cc

failure_code_of_lem :
    (j : Option Json)
    → (failure_code_of j ≡ err integrity_failure)
      ⊎ ((code : Option String) × (failure_code_of j ≡ ok code))
unfolding failure_code_of
failure_code_of_lem none = inr (none, refl)
failure_code_of_lem (some null) = inr (none, refl)
failure_code_of_lem (some (text t)) = inr (some t, refl)
failure_code_of_lem (some _) = inl refl

module _ (rt : Runtime) where
  -- What a step of the projection comes to: an integrity failure, or the view of the branch that
  -- is taken, at the event's status and failure code.
  reduce_run-cases :
      (current : Option RunView) (event : ApplicationEvent)
      → (reduce_run rt current event ≡ err integrity_failure)
        ⊎ ((status : RunStatus) × (code : Option String) × (event_status current event.event_type
              ≡ some status)
            × (reduce_run rt current event ≡ view_from rt current status code event))
  unfolding reduce_run or_raise
  reduce_run-cases current event =
      by_parts (event_status current event.event_type) refl
        (failure_code_of_lem (get "failure_code" event.payload))
    where
      by_parts :
          (o : Option RunStatus)
          → event_status current event.event_type ≡ o
          → (failure_code_of (get "failure_code" event.payload) ≡ err integrity_failure)
            ⊎ ((code : Option String) × (failure_code_of (get "failure_code" event.payload)
                  ≡ ok code))
          → (reduce_run rt current event ≡ err integrity_failure)
            ⊎ ((status : RunStatus) × (code : Option String) × (event_status current
                    event.event_type
                  ≡ some status)
                × (reduce_run rt current event ≡ view_from rt current status code event))
      by_parts none e f = inl (rw e)
      by_parts (some status) e (inl f) = inl (rw (e, f))
      by_parts (some status) e (inr (code, f)) = inr (status, code, e, rw (e, f))

  next_view-terminal :
      (view : RunView) (status : RunStatus) (code : Option String) (event : ApplicationEvent)
      → is_terminal view.status ≡ true
      → next_view rt view status code event ≡ err integrity_failure
  unfolding next_view validate_run_transition
  next_view-terminal view status code event h =
      rw (allowed-terminal view.status status h) (ground arith)

  -- A run that has completed, failed, been cancelled or timed out takes no further event, of
  -- whatever type: every event is an integrity failure.
  pub reduce_run-terminal :
      (view : RunView) (event : ApplicationEvent)
      → is_terminal view.status ≡ true
      → reduce_run rt (some view) event ≡ err integrity_failure
  reduce_run-terminal view event h = elim (reduce_run-cases (some view) event) [
    | inl refused ↦ refused
    | inr (status, code, e, f) ↦ f ∙ unfold view_from in next_view-terminal view status code event h
  ]

  -- The status and the version that a step of the projection leaves.
  pub record Stepped (current : Option RunView) (event : ApplicationEvent) (view : RunView)
      : Type 0 where
    pub status_of : event_status current event.event_type ≡ some view.status
    pub version_of : view.version ≡ event.aggregate_sequence
    pub first : current ≡ none → event.event_type ≡ "investigation.requested"
    pub contiguous : (v : RunView) → current ≡ some v → view.version ≡ v.version + 1
    pub permitted : (v : RunView) → current ≡ some v → allowed v.status view.status ≡ true

  first_view-status :
      (status : RunStatus) (event : ApplicationEvent) (view : RunView)
      → first_view rt status event ≡ ok view
      → (view.status ≡ status)
        × (view.version ≡ event.aggregate_sequence)
        × (event.event_type ≡ "investigation.requested")
  unfolding first_view
  first_view-status status event view h =
      ground (arith, string_eq.beq_iff event.event_type "investigation.requested")

  next_view-status :
      (v : RunView) (status : RunStatus) (code : Option String) (event : ApplicationEvent)
      (view : RunView)
      → next_view rt v status code event ≡ ok view
      → (view.status ≡ status)
        × (view.version ≡ event.aggregate_sequence)
        × (view.version ≡ v.version + 1)
        × (allowed v.status status ≡ true)
  unfolding next_view validate_run_transition
  next_view-status v status code event view h = ground arith

  -- Every accepted step of a run moves along the state machine, by one version, and the first is
  -- the request.
  pub reduce_run-Stepped :
      (current : Option RunView) (event : ApplicationEvent) (view : RunView)
      → reduce_run rt current event ≡ ok view
      → Stepped current event view
  reduce_run-Stepped current event view h = by_cases current refl (reduce_run-cases current event)
    where
      by_cases :
          (c : Option RunView)
          → c ≡ current
          → (reduce_run rt current event ≡ err integrity_failure)
            ⊎ ((status : RunStatus) × (code : Option String) × (event_status current
                    event.event_type
                  ≡ some status)
                × (reduce_run rt current event ≡ view_from rt current status code event))
          → Stepped current event view
      by_cases c e (inl refused) = absurd (cc (h, refused))
      by_cases none e (inr (status, code, p, q)) =
          let (a, b, d) = first_view-status status event view (
            unfold view_from in
            subst (λ c. view_from rt c status code event ≡ ok view) (sym e) (sym q ∙ h)) in
          record {
            status_of = p ∙ ap some (sym a);
            version_of = b;
            first = λ n. d;
            contiguous = λ v f. absurd (cc (e, f));
            permitted = λ v f. absurd (cc (e, f));
          }
      by_cases (some w) e (inr (status, code, p, q)) =
          let (a, b, d, g) = next_view-status w status code event view (
            unfold view_from in
            subst (λ c. view_from rt c status code event ≡ ok view) (sym e) (sym q ∙ h)) in
          record {
            status_of = p ∙ ap some (sym a);
            version_of = b;
            first = λ n. absurd (cc (e, n));
            contiguous = λ v f. rw (← some-injective w v (e ∙ f)) d;
            permitted = λ v f. rw (a, ← some-injective w v (e ∙ f)) g;
          }
