-- ===== src/Durability/Invariant/Projects.antt =====
-- The views behind the writes of `_append_locked`.
use aegis_framework_platform.Base.{
  String, ◌≡◌, refl, sym, ◌∙◌, ◌≢◌, subst, false, Option, none, some, List, [], ◌∷◌, ◌++◌,
  append-nil, arith, Bool-cases, inl, inr, beq-eq_true, string_eq, pair_eq, All, All-map, select,
  select-append, select-All, select-none, ok, >>=-eq-ok,
}
use aegis_framework_platform.Base.Dict.{Dict, get, put, get-put_self, get-put_ne}
use aegis_framework_platform.Runtime.{Runtime}
use aegis_framework_platform.Durability.{
  Durability, RunView, ApplicationEvent, EventDraft, AggregateHead, TenantHead, tenant_events,
  aggregate_head, tenant_head,
}
use aegis_framework_platform.Durability.Reduce.{reduce_run, reduce_runs}
use aegis_framework_platform.Durability.Append.{
  Batch, aggregate_key, build_events, batch_events, project_events, update_runs, commit_append,
}
use aegis_framework_platform.Durability.Verify.{is_run_event, run_events}
use aegis_framework_platform.Durability.Projection.{
  IsOfRun, as_entry, reduce_runs-append, project_events-run, project_events-other,
}
use aegis_framework_platform.Durability.Invariant.{IsProjected}

-- An event of the batch's tenant and aggregate.
abbrev IsOf : String → String → String → ApplicationEvent → Type 0
IsOf tenant_id aggregate_type aggregate_id event =
    (event.tenant_id ≡ tenant_id)
    × (event.aggregate_type ≡ aggregate_type)
    × (event.aggregate_id ≡ aggregate_id)

build_events-IsOf :
    (rt : Runtime) (t ty id : String) (drafts : List EventDraft) (a : AggregateHead)
    (h : TenantHead)
    → All (IsOf t ty id) (build_events rt t ty id a h drafts)
unfolding build_events
build_events-IsOf rt t ty id [] a h = tt
build_events-IsOf rt t ty id (d ∷ ds) a h =
    ((refl, refl, refl), build_events-IsOf rt t ty id ds _ _)

batch_events-IsOf :
    (rt : Runtime) (b : Batch) (s : Durability)
    → All (IsOf b.tenant_id b.aggregate_type b.aggregate_id) (batch_events rt b s)
unfolding batch_events
batch_events-IsOf rt b s =
    build_events-IsOf rt b.tenant_id b.aggregate_type b.aggregate_id b.drafts
      (record (aggregate_head s (aggregate_key b)) { sequence = b.expected_version })
      (tenant_head s b.tenant_id)

pub batch_events-IsOfRun :
    (rt : Runtime) (b : Batch) (s : Durability)
    → b.aggregate_type ≡ "investigation"
    → All (IsOfRun b.tenant_id b.aggregate_id) (batch_events rt b s)
batch_events-IsOfRun rt b s is_run =
    All-map (batch_events rt b s) (λ e i. (i.0, i.1 ∙ is_run, i.2)) (batch_events-IsOf rt b s)

module _ (rt : Runtime) where
  reduce_runs-some :
      (v : RunView) (es : List ApplicationEvent) → reduce_runs rt (some v) es ≢ ok none
  unfolding reduce_runs
  reduce_runs-some v [] q = cc
  reduce_runs-some v (x ∷ xs) q =
      let (w, p, r) = >>=-eq-ok (reduce_run rt (some v) x) _ q in reduce_runs-some w xs r

  pub reduce_runs-ne_none :
      (c : Option RunView) (e : ApplicationEvent) (es : List ApplicationEvent)
      → reduce_runs rt c (e ∷ es) ≢ ok none
  unfolding reduce_runs
  reduce_runs-ne_none c e es h =
      let (v, p, q) = >>=-eq-ok (reduce_run rt c e) _ h in reduce_runs-some v es q

module _ (rt : Runtime) (tenant_id run_id : String) (event : ApplicationEvent)
    (rest : List ApplicationEvent) (runs projected : Dict (String × String) RunView) where
  -- A projected batch of a run stores one view, the reduction of its events.
  pub projected_run :
      All (IsOfRun tenant_id run_id) (event ∷ rest)
      → project_events rt runs [] (event ∷ rest) ≡ ok projected
      → (view : RunView) × (reduce_runs rt (get (tenant_id, run_id) runs) (event ∷ rest)
          ≡ ok (some view))
        × (update_runs projected runs ≡ put (tenant_id, run_id) view runs)
  unfolding update_runs put
  projected_run h p =
      let (o, q, r) =
        >>=-eq-ok (reduce_runs rt (get (tenant_id, run_id) runs) (event ∷ rest))
          (as_entry (tenant_id, run_id))
          (sym (project_events-run rt runs tenant_id run_id event rest h) ∙ p) in
      found o q r
    where
      stored :
          {view : RunView}
          → as_entry (tenant_id, run_id) (some view) ≡ ok projected
          → update_runs projected runs ≡ put (tenant_id, run_id) view runs
      stored {view} r =
          let key : String × String = (tenant_id, run_id) in
          let same : put key view [] ≡ projected = cc in
          subst (λ p. update_runs p runs ≡ put key view runs) same refl

      found :
          (o : Option RunView)
          → reduce_runs rt (get (tenant_id, run_id) runs) (event ∷ rest) ≡ ok o
          → as_entry (tenant_id, run_id) o ≡ ok projected
          → (view : RunView) × (reduce_runs rt (get (tenant_id, run_id) runs) (event ∷ rest)
              ≡ ok (some view))
            × (update_runs projected runs ≡ put (tenant_id, run_id) view runs)
      found none q r = absurd (reduce_runs-ne_none rt (get (tenant_id, run_id) runs) event rest q)
      found (some view) q r = (view, q, stored r)

module _ (rt : Runtime) (b : Batch) (s : Durability) (h : IsProjected rt s)
    (first : ApplicationEvent) (rest : List ApplicationEvent)
    (batch : batch_events rt b s ≡ first ∷ rest) (projected : Dict (String × String) RunView)
    (accepted : project_events rt s.runs [] (first ∷ rest) ≡ ok projected) where
  abbrev committed : Durability
  committed = (commit_append b (first ∷ rest) projected s).1

  batch_IsOf : All (IsOf b.tenant_id b.aggregate_type b.aggregate_id) (first ∷ rest)
  batch_IsOf = rw batch at (batch_events-IsOf rt b s)

  -- A batch with no event of a run leaves the run's events as they were.
  run_events_none :
      (t r : String)
      → (b.tenant_id ≡ t → select (is_run_event r) (first ∷ rest) ≡ [])
      → run_events committed t r ≡ run_events s t r
  unfolding commit_append
  run_events_none t r absent = elim (Bool-cases (string_eq.beq b.tenant_id t)) [
    | inl same ↦
        let e = beq-eq_true ⦃e = string_eq⦄ b.tenant_id t same in
        subst (λ u. run_events committed u r ≡ run_events s u r) e
          (rw get-put_self (
            select-append (is_run_event r) (tenant_events s b.tenant_id) (first ∷ rest)
            ∙ rw (absent e, append-nil)))
    | inr other ↦ rw (
        get-put_ne b.tenant_id t _ s.events
          (λ e. cc (other, (string_eq.beq_iff b.tenant_id t).1 e)))
  ]

  -- Where the batch is of a run: the view of that run is reduced further, and no other.
  module _ (is_run : b.aggregate_type ≡ "investigation") where
    batch_IsOfRun : All (IsOfRun b.tenant_id b.aggregate_id) (first ∷ rest)
    batch_IsOfRun = rw batch at (batch_events-IsOfRun rt b s is_run)

    all_run_events : select (is_run_event b.aggregate_id) (first ∷ rest) ≡ first ∷ rest
    all_run_events = select-All (is_run_event b.aggregate_id) (first ∷ rest) (
        All-map (first ∷ rest)
          (λ e i. ground (
            arith,
            string_eq.beq_iff e.aggregate_type "investigation",
            string_eq.beq_iff e.aggregate_id b.aggregate_id,
          ))
          batch_IsOfRun)

    more_run_events :
        run_events committed b.tenant_id b.aggregate_id
        ≡ run_events s b.tenant_id b.aggregate_id ++ first ∷ rest
    unfolding commit_append
    more_run_events = rw get-put_self (
        select-append (is_run_event b.aggregate_id) (tenant_events s b.tenant_id) (first ∷ rest)
        ∙ rw all_run_events)

    abbrev IsReduced : String × String → Type 0
    IsReduced key =
        reduce_runs rt none (run_events committed key.0 key.1) ≡ ok (get key committed.runs)

    IsReduced-same : IsReduced (b.tenant_id, b.aggregate_id)
    unfolding commit_append
    IsReduced-same =
        let key : String × String = (b.tenant_id, b.aggregate_id) in
        let (view, q, u) =
          projected_run rt b.tenant_id b.aggregate_id first rest s.runs projected batch_IsOfRun
            accepted in
        rw more_run_events (
          reduce_runs-append rt none (run_events s b.tenant_id b.aggregate_id) (first ∷ rest)
          ∙ rw (h.reduced b.tenant_id b.aggregate_id) (q ∙ rw u (rw get-put_self)))

    IsReduced-other :
        (t r : String) → pair_eq.beq (b.tenant_id, b.aggregate_id) (t, r) ≡ false → IsReduced (t, r)
    unfolding commit_append
    IsReduced-other t r ne =
        let key : String × String = (b.tenant_id, b.aggregate_id) in
        let (view, q, u) =
          projected_run rt b.tenant_id b.aggregate_id first rest s.runs projected batch_IsOfRun
            accepted in
        rw (run_events_none t r absent) (
          h.reduced t r
          ∙ rw u (
              rw (
                get-put_ne {K = String × String} key (t, r) view s.runs
                  (λ e. cc (ne, (pair_eq.beq_iff key (t, r)).1 e)))))
      where
        absent : b.tenant_id ≡ t → select (is_run_event r) (first ∷ rest) ≡ []
        absent e = select-none (is_run_event r) (first ∷ rest) (
            All-map (first ∷ rest)
              (λ x i. ground (
                arith,
                string_eq.beq_iff x.aggregate_id r,
                string_eq.beq_iff b.aggregate_id r,
                string_eq.beq_iff b.tenant_id t,
                i.2,
                e,
                ne,
              ))
              batch_IsOfRun)

    pub commit_run-IsProjected : IsProjected rt committed
    commit_run-IsProjected = record {
      reduced = λ t r. elim (Bool-cases (pair_eq.beq (b.tenant_id, b.aggregate_id) (t, r))) [
        | inl same ↦
            subst IsReduced (beq-eq_true ⦃e = pair_eq⦄ (b.tenant_id, b.aggregate_id) (t, r) same)
              IsReduced-same
        | inr other ↦ IsReduced-other t r other
      ];
    }

  -- Where it is of another aggregate, no view changes.
  module _ (no_run : b.aggregate_type ≢ "investigation") where
    batch_other : All (λ (e : ApplicationEvent). e.aggregate_type ≢ "investigation") (first ∷ rest)
    batch_other = All-map (first ∷ rest) (λ e i p. no_run (sym i.1 ∙ p)) batch_IsOf

    pub commit_other-IsProjected : IsProjected rt committed
    unfolding commit_append update_runs
    commit_other-IsProjected = record {
      reduced = λ t r.
          let none_projected : [] ≡ projected =
            cc (project_events-other rt s.runs [] (first ∷ rest) batch_other) in
          rw
            (run_events_none t r (λ e. select-none (is_run_event r) (first ∷ rest) (
              All-map (first ∷ rest)
                (λ x n. ground (arith, string_eq.beq_iff x.aggregate_type "investigation"))
                batch_other)))
            (subst
              (λ p. reduce_runs rt none (run_events s t r) ≡ ok (get (t, r) (update_runs p s.runs)))
              none_projected (h.reduced t r));
    }

  pub commit-IsProjected : IsProjected rt committed
  commit-IsProjected = elim (Bool-cases (string_eq.beq b.aggregate_type "investigation")) [
    | inl run ↦ commit_run-IsProjected (beq-eq_true ⦃e = string_eq⦄ _ _ run)
    | inr other ↦
        commit_other-IsProjected
          (λ e. cc (other, (string_eq.beq_iff b.aggregate_type "investigation").1 e))
  ]
