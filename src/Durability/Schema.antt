-- ===== src/Durability/Schema.antt =====
-- Events of a later schema version, which `EventDraft` accepts up to 1000 and `append` stores.
use aegis_framework_platform.Base.{
  ◌<◌, String, ◌≡◌, refl, ap, ◌∙◌, sym, inl, inr, Bool, true, false, not, Bool-cases, ◌||◌, List,
  [], ◌∷◌, ◌++◌, none, arith, string_eq, pair_eq, nat_beq, ltb, length, Result, ok, err, or_default,
}
use aegis_framework_platform.Base.Dict.{Dict, get-put_self}
use aegis_framework_platform.Runtime.{Runtime}
use aegis_framework_platform.Durability.{
  Durability, EventDraft, ApplicationEvent, AggregateHead, TenantHead, RunView, tenant_events,
  max_events_per_append,
}
use aegis_framework_platform.Durability.Append.{
  Batch, build_event, build_events, batch_events, commit_append, append_locked, append,
}
use aegis_framework_platform.Durability.Verify.{
  Scan, scan_start, is_accepted, advance, scan_events, verify_integrity,
}
use aegis_framework_platform.Durability.Invariant.{append_locked-cases}
use aegis_framework_platform.Durability.Invariant.Preserved.{batch_events-cons}

-- Some draft, or some event, has another schema version than 1.
unfoldable pub any_stale_draft : List EventDraft → Bool
any_stale_draft [] = false
any_stale_draft (draft ∷ rest) = not (nat_beq draft.schema_version 1) || any_stale_draft rest

any_stale : List ApplicationEvent → Bool
any_stale [] = false
any_stale (event ∷ rest) = not (nat_beq event.schema_version 1) || any_stale rest

any_stale-append :
    (xs ys : List ApplicationEvent) → any_stale ys ≡ true → any_stale (xs ++ ys) ≡ true
unfolding any_stale
any_stale-append [] ys h = h
any_stale-append (x ∷ xs) ys h = ground (arith, any_stale-append xs ys h)

module _ (rt : Runtime) where
  stale_unaccepted :
      (v : Scan) (event : ApplicationEvent)
      → nat_beq event.schema_version 1 ≡ false
      → is_accepted rt v event ≡ false
  unfolding is_accepted
  stale_unaccepted v event h = rw h refl

  scan_events-stale :
      (v : Scan) (events : List ApplicationEvent)
      → any_stale events ≡ true
      → scan_events rt v events ≡ none
  unfolding any_stale scan_events
  scan_events-stale v [] h = cc
  scan_events-stale v (event ∷ rest) h = elim (Bool-cases (nat_beq event.schema_version 1)) [
    | inr stale ↦ rw (stale_unaccepted v event stale) refl
    | inl current ↦
        ground (arith, scan_events-stale (advance v event) rest (ground (arith, current)))
  ]

  build_events-stale :
      (t ty id : String) (drafts : List EventDraft) (a : AggregateHead) (h : TenantHead)
      → any_stale (build_events rt t ty id a h drafts) ≡ any_stale_draft drafts
  unfolding any_stale any_stale_draft build_events
  build_events-stale t ty id [] a h = refl
  build_events-stale t ty id (draft ∷ rest) a h =
      unfold build_event in
      ap (λ x. not (nat_beq draft.schema_version 1) || x) (build_events-stale t ty id rest _ _)

  -- A store whose tenant has a stale event somewhere in its list.
  verify_integrity-stale :
      (s : Durability) (tenant_id : String)
      → any_stale (tenant_events s tenant_id) ≡ true
      → verify_integrity rt s tenant_id ≡ false
  unfolding verify_integrity
  verify_integrity-stale s tenant_id h =
      rw (scan_events-stale scan_start (tenant_events s tenant_id) h, verify_integrity) refl

  module _ (b : Batch) (s : Durability) (stale : any_stale_draft b.drafts ≡ true) where
    abbrev Broken : Result (List ApplicationEvent) × Durability → Type 0
    Broken (ok events, t) = verify_integrity rt t b.tenant_id ≡ false
    Broken (err e, t) = Unit

    committed_stale :
        (first : ApplicationEvent) (rest : List ApplicationEvent)
        (projected : Dict (String × String) RunView)
        → any_stale (first ∷ rest) ≡ true
        → Broken (commit_append b (first ∷ rest) projected s)
    unfolding commit_append
    committed_stale first rest projected h = verify_integrity-stale _ b.tenant_id (
        ap (λ o. any_stale (or_default o []))
          (get-put_self b.tenant_id (tenant_events s b.tenant_id ++ (first ∷ rest)) s.events)
        ∙ any_stale-append (tenant_events s b.tenant_id) (first ∷ rest) h)

    append_locked-Broken : 0 < length b.drafts → Broken (append_locked rt b s)
    append_locked-Broken p =
        append_locked-cases rt Broken b s (λ e. tt)
          λ projected admitted accepted.
            let (first, rest, batch) = batch_events-cons rt b s p in
            let h : any_stale (batch_events rt b s) ≡ true =
              unfold batch_events in (build_events-stale _ _ _ b.drafts _ _ ∙ stale) in
            rw batch (committed_stale first rest projected (ap any_stale (sym batch) ∙ h))

    append-Broken : Broken (append rt b s)
    unfolding append
    append-Broken =
        elim (Bool-cases
          (nat_beq (length b.drafts) 0 || ltb max_events_per_append (length b.drafts))) [
            | inl out ↦ rw out tt
            | inr within ↦ rw within (append_locked-Broken (ground arith))
          ]

    -- After an append, to any store, of a batch in which some draft has another schema version than
    -- 1, the hash chain of its tenant fails the verification.
    pub append_stale :
        (events : List ApplicationEvent)
        → (append rt b s).0 ≡ ok events
        → verify_integrity rt (append rt b s).1 b.tenant_id ≡ false
    append_stale events = by_outcome (append rt b s) append-Broken
      where
        by_outcome :
            (r : Result (List ApplicationEvent) × Durability)
            → Broken r
            → r.0 ≡ ok events
            → verify_integrity rt r.1 b.tenant_id ≡ false
        by_outcome (ok x, t) h e = h
        by_outcome (err x, t) h e = cc
