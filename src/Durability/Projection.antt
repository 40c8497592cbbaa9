-- ===== src/Durability/Projection.antt =====
-- `project_events`, the projection of an append, beside `reduce_run` over the events of a run.
use aegis_framework_platform.Base.{
  String, ◌≡◌, refl, ◌≢◌, not, Option, none, some, List, [], ◌∷◌, ◌++◌, arith, ◌==◌, if◌then◌else◌,
  string_eq, pair_eq, All, Result, ok, err, ◌>>=◌,
}
use aegis_framework_platform.Base.Dict.{Dict, get, put, get-put_self, put-put_self}
use aegis_framework_platform.Runtime.{Runtime}
use aegis_framework_platform.Durability.{ApplicationEvent, RunView}
use aegis_framework_platform.Durability.Reduce.{reduce_run, reduce_runs}
use aegis_framework_platform.Durability.Append.{newest, project_events}

-- Binds regroup, where the continuation is the two that follow.
>>=-assoc :
    {A B C : Type 0} (r : Result A) (f : A → Result B) (g : B → Result C) (k : A → Result C)
    → ((a : A) → k a ≡ (f a >>= g))
    → (r >>= k) ≡ ((r >>= f) >>= g)
>>=-assoc (ok a) f g k h = h a
>>=-assoc (err e) f g k h = refl

-- The projected entry of a batch, if there is one.
abbrev pub as_entry : String × String → Option RunView → Result (Dict (String × String) RunView)
as_entry key none = ok []
as_entry key (some view) = ok (put key view [])

-- Every event of the batch is of the run.
abbrev pub IsOfRun : String → String → ApplicationEvent → Type 0
IsOfRun tenant_id run_id event =
    (event.tenant_id ≡ tenant_id)
    × (event.aggregate_type ≡ "investigation")
    × (event.aggregate_id ≡ run_id)

module _ (rt : Runtime) where
  pub reduce_runs-append :
      (current : Option RunView) (xs ys : List ApplicationEvent)
      → reduce_runs rt current (xs ++ ys)
        ≡ (reduce_runs rt current xs >>= λ view. reduce_runs rt view ys)
  unfolding reduce_runs
  reduce_runs-append current [] ys = refl
  reduce_runs-append current (event ∷ xs) ys =
      >>=-assoc (reduce_run rt current event) (λ next. reduce_runs rt (some next) xs)
        (λ view. reduce_runs rt view ys) (λ next. reduce_runs rt (some next) (xs ++ ys))
        (λ next. reduce_runs-append (some next) xs ys)

  module _ (runs : Dict (String × String) RunView) (tenant_id run_id : String) where
    project_events-cons :
        (projected : Dict (String × String) RunView) (event : ApplicationEvent)
        (rest : List ApplicationEvent)
        → IsOfRun tenant_id run_id event
        → project_events rt runs projected (event ∷ rest) ≡ (
            reduce_run rt (newest (tenant_id, run_id) projected runs) event >>= λ view.
            project_events rt runs (put (tenant_id, run_id) view projected) rest)
    unfolding project_events
    project_events-cons projected event rest h = λ i.
        if not (h.1 i == "investigation")
        then project_events rt runs projected rest
        else (reduce_run rt (newest (h.0 i, h.2 i) projected runs) event >>= λ view.
            project_events rt runs (put (h.0 i, h.2 i) view projected) rest)

    newest-put :
        (view : RunView)
        → newest (tenant_id, run_id) (put (tenant_id, run_id) view []) runs ≡ some view
    unfolding newest
    newest-put view =
        let key : String × String = (tenant_id, run_id) in rw (get-put_self key view [], newest)

    project_events-single :
        (events : List ApplicationEvent) (view : RunView)
        → All (IsOfRun tenant_id run_id) events
        → project_events rt runs (put (tenant_id, run_id) view []) events
          ≡ (reduce_runs rt (some view) events >>= as_entry (tenant_id, run_id))
    unfolding reduce_runs
    project_events-single [] view h = unfold project_events in refl
    project_events-single (event ∷ rest) view h =
        rw (project_events-cons (put (tenant_id, run_id) view []) event rest h.0, newest-put)
          (>>=-assoc (reduce_run rt (some view) event) (λ next. reduce_runs rt (some next) rest)
            (as_entry (tenant_id, run_id))
            (λ next.
              project_events rt runs
                (put (tenant_id, run_id) next (put (tenant_id, run_id) view [])) rest)
            (λ next. rw put-put_self (project_events-single rest next h.1)))

    -- The batch's projection is the reduction of its events over the stored one.
    pub project_events-run :
        (event : ApplicationEvent) (rest : List ApplicationEvent)
        → All (IsOfRun tenant_id run_id) (event ∷ rest)
        → project_events rt runs [] (event ∷ rest) ≡ (
            reduce_runs rt (get (tenant_id, run_id) runs) (event ∷ rest)
            >>= as_entry (tenant_id, run_id))
    unfolding reduce_runs newest get
    project_events-run event rest h = rw (project_events-cons [] event rest h.0) (
        >>=-assoc (reduce_run rt (get (tenant_id, run_id) runs) event)
          (λ next. reduce_runs rt (some next) rest) (as_entry (tenant_id, run_id))
          (λ next. project_events rt runs (put (tenant_id, run_id) next []) rest)
          (λ next. project_events-single rest next h.1))

  -- Of another aggregate nothing is projected.
  pub project_events-other :
      (runs projected : Dict (String × String) RunView) (events : List ApplicationEvent)
      → All (λ (event : ApplicationEvent). event.aggregate_type ≢ "investigation") events
      → project_events rt runs projected events ≡ ok projected
  unfolding project_events
  project_events-other runs projected [] h = refl
  project_events-other runs projected (event ∷ rest) h = ground (
    arith,
    string_eq.beq_iff event.aggregate_type "investigation",
    project_events-other runs projected rest h.1,
  )
