-- ===== src/Durability/Invariant/Preserved.antt =====
-- The invariant of the store under `append`.
use aegis_framework_platform.Base.{
  String, ◌≡◌, refl, List, [], ◌∷◌, ◌<◌, length, All, arith, inl, inr, Bool-cases, ltb, ◌||◌,
  nat_beq,
}
use aegis_framework_platform.Runtime.{Runtime}
use aegis_framework_platform.Durability.{
  max_events_per_append, Durability, EventDraft, ApplicationEvent, AggregateHead, TenantHead,
}
use aegis_framework_platform.Durability.Append.{
  Batch, build_events, batch_events, append_locked, append,
}
use aegis_framework_platform.Durability.Invariant.{
  IsConsistent, checked-IsAdmitted, append_locked-cases,
}
use aegis_framework_platform.Durability.Invariant.Appends.{commit-IsLinked}
use aegis_framework_platform.Durability.Invariant.Projects.{commit-IsProjected}

-- Every draft of the batch has the schema version that `verify_integrity` accepts.
abbrev pub IsCurrent : Batch → Type 0
IsCurrent b = All (λ (draft : EventDraft). draft.schema_version ≡ 1) b.drafts

build_events-ne_nil :
    (rt : Runtime) (t ty id : String) (drafts : List EventDraft) (a : AggregateHead)
    (h : TenantHead)
    → 0 < length drafts
    → (first : ApplicationEvent) × (rest : List ApplicationEvent) × (build_events rt t ty id a h
          drafts
        ≡ first ∷ rest)
unfolding build_events
build_events-ne_nil rt t ty id [] a h p = absurd (omega arith)
build_events-ne_nil rt t ty id (d ∷ ds) a h p = (_, _, refl)

pub batch_events-cons :
    (rt : Runtime) (b : Batch) (s : Durability)
    → 0 < length b.drafts
    → (first : ApplicationEvent) × (rest : List ApplicationEvent) × (batch_events rt b s
        ≡ first ∷ rest)
unfolding batch_events
batch_events-cons rt b s p = build_events-ne_nil rt _ _ _ b.drafts _ _ p

module _ (rt : Runtime) (b : Batch) (s : Durability) (current : IsCurrent b) where
  pub append_locked-IsConsistent :
      0 < length b.drafts → IsConsistent rt s → IsConsistent rt (append_locked rt b s).1
  append_locked-IsConsistent p h =
      append_locked-cases rt (λ q. IsConsistent rt q.1) b s (λ e. h)
        λ projected admitted accepted.
          let (first, rest, batch) = batch_events-cons rt b s p in
          rw batch (record {
            linked =
                commit-IsLinked rt b s (checked-IsAdmitted b s admitted) current first rest batch
                  projected h.linked;
            projected =
                commit-IsProjected rt b s h.projected first rest batch projected
                  (rw batch at accepted);
          })

  pub append-IsConsistent : IsConsistent rt s → IsConsistent rt (append rt b s).1
  unfolding append
  append-IsConsistent h =
      elim (Bool-cases
        (nat_beq (length b.drafts) 0 || ltb max_events_per_append (length b.drafts))) [
          | inl out ↦ rw out h
          | inr within ↦ rw within (append_locked-IsConsistent (ground arith) h)
        ]
