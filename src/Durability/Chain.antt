-- ===== src/Durability/Chain.antt =====
-- The hash chain that `_append_locked` writes, under the scan of `verify_integrity`.
use aegis_framework_platform.Base.{
  ◌+◌, String, ◌≡◌, refl, ap, ◌≢◌, Bool, true, false, ◌||◌, Option, none, some, List, [], ◌∷◌, ◌++◌,
  arith, if◌then◌else◌, beq_refl, contains, all_distinct, string_eq, pair_eq, last_of, All,
}
use aegis_framework_platform.Base.Dict.{get-put, get-put_self}
use aegis_framework_platform.Runtime.{Runtime}
use aegis_framework_platform.Durability.{EventDraft, ApplicationEvent, AggregateHead, TenantHead}
use aegis_framework_platform.Durability.Append.{event_ids_of, build_event, build_events, add_ids}
use aegis_framework_platform.Durability.Verify.{
  Scan, scan_head, event_key, advance, is_accepted, scan_events,
}

-- A pass over events that are all accepted.
abbrev pub advance_all : Scan → List ApplicationEvent → Scan
advance_all v [] = v
advance_all v (event ∷ rest) = advance_all (advance v event) rest

module _ (rt : Runtime) where
  pub scan_events-append :
      (v w : Scan) (xs ys : List ApplicationEvent)
      → scan_events rt v xs ≡ some w
      → scan_events rt v (xs ++ ys) ≡ scan_events rt w ys
  unfolding scan_events
  scan_events-append v w [] ys h =
      ap (λ (o : Option Scan). elim o [ none ↦ none | some u ↦ scan_events rt u ys ]) h
  scan_events-append v w (event ∷ xs) ys h =
      ground (arith, scan_events-append (advance v event) w xs ys)

-- Some of the identifiers has been seen.
abbrev pub any_seen : List String → List String → Bool
any_seen seen [] = false
any_seen seen (i ∷ ids) = contains i seen || any_seen seen ids

any_seen-cons :
    (x : String) (seen ids : List String)
    → contains x ids ≡ false
    → any_seen seen ids ≡ false
    → any_seen (x ∷ seen) ids ≡ false
unfolding contains
any_seen-cons x seen [] h k = refl
any_seen-cons x seen (i ∷ ids) h k =
    ground (arith, string_eq.beq_iff x i, string_eq.beq_iff i x, any_seen-cons x seen ids)

module _ (rt : Runtime) (tenant_id aggregate_type aggregate_id : String) where
  -- Every event of a batch is of the batch's aggregate.
  abbrev pub IsOfBatch : ApplicationEvent → Type 0
  IsOfBatch event = event_key event ≡ (aggregate_type, aggregate_id)

  pub build_events-IsOfBatch :
      (drafts : List EventDraft) (aggregate : AggregateHead) (tenant : TenantHead)
      → All IsOfBatch
          (build_events rt tenant_id aggregate_type aggregate_id aggregate tenant drafts)
  unfolding build_events
  build_events-IsOfBatch [] aggregate tenant = tt
  build_events-IsOfBatch (draft ∷ rest) aggregate tenant = (refl, build_events-IsOfBatch rest _ _)

  -- An event that is built behind a scan's heads is accepted there.
  is_accepted-build_event :
      (v : Scan) (draft : EventDraft)
      → draft.schema_version ≡ 1
      → contains draft.event_id v.seen ≡ false
      → let aggregate = scan_head v (aggregate_type, aggregate_id) in
        is_accepted rt v (
          build_event rt tenant_id aggregate_type aggregate_id
            (aggregate.sequence + 1)
            (v.tenant.cursor + 1)
            draft
            aggregate.record_hash
            v.tenant.record_hash)
        ≡ true
  unfolding is_accepted build_event
  is_accepted-build_event v draft ver new =
      let aggregate = scan_head v (aggregate_type, aggregate_id) in
      ground (
        arith,
        string_eq.beq_iff aggregate.record_hash aggregate.record_hash,
        string_eq.beq_iff v.tenant.record_hash v.tenant.record_hash,
        beq_refl ⦃e = string_eq⦄
            (build_event rt tenant_id aggregate_type aggregate_id (aggregate.sequence + 1)
              (v.tenant.cursor + 1) draft aggregate.record_hash v.tenant.record_hash).record_hash,
      )

  -- The events that are built behind a scan's heads are accepted one after the other.
  pub scan_events-build_events :
      (drafts : List EventDraft) (v : Scan)
      → All (λ (draft : EventDraft). draft.schema_version ≡ 1) drafts
      → all_distinct (event_ids_of drafts) ≡ true
      → any_seen v.seen (event_ids_of drafts) ≡ false
      → let events =
          build_events rt tenant_id aggregate_type aggregate_id
            (scan_head v (aggregate_type, aggregate_id))
            v.tenant
            drafts in
        scan_events rt v events ≡ some (advance_all v events)
  unfolding scan_events build_events event_ids_of all_distinct
  scan_events-build_events [] v ver dis new = refl
  scan_events-build_events (draft ∷ rest) v ver dis new =
      let aggregate = scan_head v (aggregate_type, aggregate_id) in
      let event =
        build_event rt tenant_id aggregate_type aggregate_id (aggregate.sequence + 1)
          (v.tenant.cursor + 1) draft aggregate.record_hash v.tenant.record_hash in
      rw (is_accepted-build_event v draft ver.0 (ground arith)) (
        rw get-put_self at (
          scan_events-build_events rest (advance v event) ver.1 (ground arith) (
            any_seen-cons draft.event_id v.seen (event_ids_of rest) (ground arith) (ground arith))))

-- A pass records the identifiers that the append records.
module _ (tenant_id : String) where
  pub advance_all-seen :
      (events : List ApplicationEvent) (v : Scan) (ids : List (String × String))
      → ((i : String) → contains i v.seen ≡ contains (tenant_id, i) ids)
      → (i : String)
      → contains i (advance_all v events).seen
        ≡ contains (tenant_id, i) (add_ids tenant_id events ids)
  unfolding add_ids
  advance_all-seen [] v ids h i = h i
  advance_all-seen (event ∷ rest) v ids h i =
      advance_all-seen rest (advance v event) ((tenant_id, event.event_id) ∷ ids)
        (λ j. unfold contains in ground (arith, h j, beq_refl ⦃e = string_eq⦄ tenant_id)) i

  -- The identifiers of another tenant stay as they are.
  pub add_ids-other :
      (events : List ApplicationEvent) (ids : List (String × String)) (other i : String)
      → tenant_id ≢ other
      → contains (other, i) (add_ids tenant_id events ids) ≡ contains (other, i) ids
  unfolding add_ids
  add_ids-other [] ids other i ne = refl
  add_ids-other (event ∷ rest) ids other i ne =
      rw (add_ids-other rest ((tenant_id, event.event_id) ∷ ids) other i ne)
        (unfold contains in ground (arith, string_eq.beq_iff tenant_id other))

-- After a pass over a batch the tenant's head is that of the last event.
pub advance_all-tenant :
    (v : Scan) (first : ApplicationEvent) (rest : List ApplicationEvent)
    → let last = last_of first rest in
      (advance_all v (first ∷ rest)).tenant
      ≡ record { cursor = last.tenant_cursor; record_hash = last.record_hash }
advance_all-tenant v first [] = refl
advance_all-tenant v first (second ∷ rest) = advance_all-tenant (advance v first) second rest

-- And so is the head of the batch's aggregate, while those of the others stay.
pub advance_all-heads :
    (key : String × String) (v : Scan) (first : ApplicationEvent) (rest : List ApplicationEvent)
    → All (λ (event : ApplicationEvent). event_key event ≡ key) (first ∷ rest)
    → (k : String × String)
    → let last = last_of first rest in
      scan_head (advance_all v (first ∷ rest)) k ≡ (
        if pair_eq.beq key k
        then record { sequence = last.aggregate_sequence; record_hash = last.record_hash }
        else scan_head v k)
advance_all-heads key v first [] h k = rw get-put (ground (arith, h.0))
advance_all-heads key v first (second ∷ rest) h k = ground (
  arith,
  advance_all-heads key (advance v first) second rest h.1 k,
  get-put (event_key first) k
      (record { sequence = first.aggregate_sequence; record_hash = first.record_hash }) v.heads,
  h.0,
)
