-- ===== src/Durability/Lifecycle/Safety.antt =====
-- What a run's status says of its recorded events.
use aegis_framework_platform.Base.{
  String, ◌≡◌, refl, ap, ◌∙◌, subst, ◌⊎◌, inl, inr, Bool, true, false, ◌||◌, ◌==◌, List, [], ◌∷◌,
  some, none, arith, string_eq, ok, >>=-eq-ok,
}
use aegis_framework_platform.Runtime.{Runtime}
use aegis_framework_platform.Durability.{
  ApplicationEvent, RunView, RunStatus, queued, running, waiting, completed, cancel_requested,
  cancelled, timed_out,
}
use aegis_framework_platform.Durability.Reduce.{
  status_by_event, allowed, event_status, reduce_run, reduce_runs,
}
use aegis_framework_platform.Durability.Lifecycle.{Stepped, reduce_run-Stepped}

-- `any(marks(event.event_type) for event in events)`
unfoldable pub any_event : (String → Bool) → List ApplicationEvent → Bool
any_event marks [] = false
any_event marks (event ∷ rest) = marks event.event_type || any_event marks rest

-- A set of statuses that is entered only by events of some types: a run that shows one of the
-- statuses has recorded one of the events.
module _ (rt : Runtime) (needs : RunStatus → Bool) (marks : String → Bool)
    (start : needs queued ≡ false)
    (enter : (v : RunView) (status : RunStatus) (t : String)
      → needs status ≡ true
      → event_status (some v) t ≡ some status
      → allowed v.status status ≡ true
      → (needs v.status ≡ true) ⊎ (marks t ≡ true)) where
  marked_since :
      (v : RunView) (events : List ApplicationEvent) (view : RunView)
      → reduce_runs rt (some v) events ≡ ok (some view)
      → needs view.status ≡ true
      → (needs v.status ≡ true) ⊎ (any_event marks events ≡ true)
  unfolding reduce_runs any_event
  marked_since v [] view h n =
      let e : view ≡ v = cc in inl (subst (λ (w : RunView). needs w.status ≡ true) e n)
  marked_since v (event ∷ rest) view h n =
      let (w, p, q) = >>=-eq-ok (reduce_run rt (some v) event) _ h in
      let s = reduce_run-Stepped rt (some v) event w p in
      elim (marked_since w rest view q n) [
        | inl at_w ↦
            (elim (enter v w.status event.event_type at_w s.status_of (s.permitted v refl)) [
              | inl at_v ↦ inl at_v
              | inr mark ↦ inr (ground (arith, mark))
            ])
        | inr later ↦ inr (ground (arith, later))
      ]

  marked :
      (events : List ApplicationEvent) (view : RunView)
      → reduce_runs rt none events ≡ ok (some view)
      → needs view.status ≡ true
      → any_event marks events ≡ true
  unfolding reduce_runs any_event
  marked [] view h n = cc
  marked (event ∷ rest) view h n =
      let (w, p, q) = >>=-eq-ok (reduce_run rt none event) _ h in
      let s = reduce_run-Stepped rt none event w p in
      elim (marked_since w rest view q n) [
        | inl at_w ↦ absurd (cc (queued_first w event s, at_w, start))
        | inr later ↦ ground (arith, later)
      ]
    where
      queued_of :
          (status : RunStatus)
          → status_by_event "investigation.requested" ≡ some status
          → status ≡ queued
      queued_of status e = unfold status_by_event in cc e

      queued_first :
          (w : RunView) (event : ApplicationEvent)
          → Stepped rt none event w
          → needs w.status ≡ needs queued
      queued_first w event s = ap needs (
          queued_of w.status (
            subst (λ t. status_by_event t ≡ some w.status) (s.first refl)
              (unfold event_status in s.status_of)))

abbrev pub needs_cancel : RunStatus → Bool
needs_cancel cancel_requested = true
needs_cancel cancelled = true
needs_cancel _ = false

event_of_cancel_requested :
    (t : String)
    → status_by_event t ≡ some cancel_requested
    → (t == "investigation.cancel_requested") ≡ true
unfolding status_by_event
event_of_cancel_requested t h = ground arith

to_cancelled : (p : RunStatus) → allowed p cancelled ≡ true → p ≡ cancel_requested
unfolding allowed
to_cancelled cancel_requested h = refl
to_cancelled _ h = cc

-- A resume keeps the status; another event has the status of the table.
event_status_cases :
    (v : RunView) (t : String) (status : RunStatus)
    → event_status (some v) t ≡ some status
    → (status ≡ v.status) ⊎ (status_by_event t ≡ some status)
unfolding event_status
event_status_cases v t status h = ground arith

enter_cancel :
    (v : RunView) (status : RunStatus) (t : String)
    → needs_cancel status ≡ true
    → event_status (some v) t ≡ some status
    → allowed v.status status ≡ true
    → (needs_cancel v.status ≡ true) ⊎ ((t == "investigation.cancel_requested") ≡ true)
enter_cancel v cancel_requested t n e a = elim (event_status_cases v t cancel_requested e) [
  | inl same ↦ inl (rw (← same))
  | inr by_table ↦ inr (event_of_cancel_requested t by_table)
]
enter_cancel v cancelled t n e a = inl (rw (to_cancelled v.status a))
enter_cancel v _ t n e a = cc

abbrev pub needs_work : RunStatus → Bool
needs_work running = true
needs_work waiting = true
needs_work completed = true
needs_work timed_out = true
needs_work _ = false

-- The events that set a run going.
abbrev pub is_work : String → Bool
is_work t =
    t == "investigation.started"
    || t == "investigation.evidence_collected"
    || t == "investigation.graph_completed"

event_of_running : (t : String) → status_by_event t ≡ some running → is_work t ≡ true
unfolding status_by_event
event_of_running t h = ground arith

from_work :
    (p c : RunStatus)
    → needs_work c ≡ true
    → allowed p c ≡ true
    → (c ≡ running) ⊎ (needs_work p ≡ true)
unfolding allowed
from_work p running n h = inl refl
from_work running c n h = inr refl
from_work waiting c n h = inr refl
from_work queued c n h = ground arith
from_work _ c n h = ground arith

enter_work :
    (v : RunView) (status : RunStatus) (t : String)
    → needs_work status ≡ true
    → event_status (some v) t ≡ some status
    → allowed v.status status ≡ true
    → (needs_work v.status ≡ true) ⊎ (is_work t ≡ true)
enter_work v status t n e a = elim (from_work v.status status n a) [
  | inr before ↦ inl before
  | inl now ↦ (elim (event_status_cases v t status e) [
    | inl same ↦ inl (rw (← same) n)
    | inr by_table ↦ inr (event_of_running t (by_table ∙ ap some now))
  ])
]

-- A run that is running, waiting, completed or timed out has recorded an event that set it going.
pub worked_needs_start :
    (rt : Runtime) (events : List ApplicationEvent) (view : RunView)
    → reduce_runs rt none events ≡ ok (some view)
    → needs_work view.status ≡ true
    → any_event is_work events ≡ true
worked_needs_start rt = marked rt needs_work is_work refl enter_work

-- A run that shows a cancellation, requested or done, has recorded the request for it.
pub cancelled_needs_request :
    (rt : Runtime) (events : List ApplicationEvent) (view : RunView)
    → reduce_runs rt none events ≡ ok (some view)
    → needs_cancel view.status ≡ true
    → any_event (λ t. t == "investigation.cancel_requested") events ≡ true
cancelled_needs_request rt =
    marked rt needs_cancel (λ t. t == "investigation.cancel_requested") refl enter_cancel
