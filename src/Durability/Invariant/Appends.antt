-- ===== src/Durability/Invariant/Appends.antt =====
-- The chain and the heads behind the writes of `_append_locked`.
use aegis_framework_platform.Base.{
  String, ◌≡◌, refl, sym, ◌∙◌, ◌≢◌, some, List, [], ◌∷◌, arith, beq-eq_true, subst, Bool-cases, inl,
  inr, contains, string_eq, pair_eq, last_of, All, ◌||◌,
}
use aegis_framework_platform.Base.Dict.{Dict, get-put, get-put_self, get-put_ne}
use aegis_framework_platform.Runtime.{Runtime}
use aegis_framework_platform.Durability.{
  Durability, RunView, ApplicationEvent, EventDraft, tenant_events, aggregate_head, tenant_head,
}
use aegis_framework_platform.Durability.Append.{
  Batch, aggregate_key, any_recorded, event_ids_of, build_events, batch_events, commit_append,
}
use aegis_framework_platform.Durability.Verify.{scan_head, scan_start, scan_events, event_key}
use aegis_framework_platform.Durability.Chain.{
  advance_all, scan_events-append, scan_events-build_events, any_seen, advance_all-seen,
  add_ids-other, advance_all-tenant, advance_all-heads, build_events-IsOfBatch,
}
use aegis_framework_platform.Durability.Invariant.{IsLinked, IsAdmitted}

any_seen-eq-any_recorded :
    (tenant_id : String) (seen : List String) (recorded : List (String × String))
    → ((i : String) → contains i seen ≡ contains (tenant_id, i) recorded)
    → (ids : List String) → any_seen seen ids ≡ any_recorded tenant_id recorded ids
unfolding any_recorded
any_seen-eq-any_recorded tenant_id seen recorded h [] = refl
any_seen-eq-any_recorded tenant_id seen recorded h (i ∷ ids) =
    λ k. h i k || any_seen-eq-any_recorded tenant_id seen recorded h ids k

module _ (rt : Runtime) (b : Batch) (s : Durability) (admitted : IsAdmitted b s)
    (versions : All (λ (draft : EventDraft). draft.schema_version ≡ 1) b.drafts) where
  -- The batch is built behind the heads of the scan.
  batch_events-eq :
      (h : IsLinked rt b.tenant_id s)
      → batch_events rt b s
        ≡ build_events rt b.tenant_id b.aggregate_type b.aggregate_id
            (scan_head h.scan (b.aggregate_type, b.aggregate_id))
            h.scan.tenant
            b.drafts
  unfolding batch_events
  batch_events-eq h = λ i.
      build_events rt b.tenant_id b.aggregate_type b.aggregate_id (same_aggregate i)
        (sym h.same_tenant i) b.drafts
    where
      same_aggregate :
          record (aggregate_head s (aggregate_key b)) { sequence = b.expected_version }
          ≡ scan_head h.scan (b.aggregate_type, b.aggregate_id)
      same_aggregate =
          (λ i. record (aggregate_head s (aggregate_key b)) { sequence = sym admitted.version i })
          ∙ sym (h.same_heads (b.aggregate_type, b.aggregate_id))

  scanned_batch :
      (h : IsLinked rt b.tenant_id s)
      → scan_events rt h.scan (batch_events rt b s)
        ≡ some (advance_all h.scan (batch_events rt b s))
  scanned_batch h = rw (batch_events-eq h) (
      scan_events-build_events rt b.tenant_id b.aggregate_type b.aggregate_id b.drafts h.scan
        versions admitted.distinct
        (any_seen-eq-any_recorded b.tenant_id h.scan.seen s.event_ids h.same_seen
            (event_ids_of b.drafts)
          ∙ admitted.new))

  module _ (first : ApplicationEvent) (rest : List ApplicationEvent)
      (batch : batch_events rt b s ≡ first ∷ rest)
      (projected : Dict (String × String) RunView) where
    batch_keys :
        All
          (λ (event : ApplicationEvent). event_key event ≡ (b.aggregate_type, b.aggregate_id))
          (first ∷ rest)
    unfolding batch_events
    batch_keys = rw batch at (
        build_events-IsOfBatch rt b.tenant_id b.aggregate_type b.aggregate_id b.drafts
          (record (aggregate_head s (aggregate_key b)) { sequence = b.expected_version })
          (tenant_head s b.tenant_id))

    commit_same_tenant :
        IsLinked rt b.tenant_id s
        → IsLinked rt b.tenant_id (commit_append b (first ∷ rest) projected s).1
    unfolding commit_append
    commit_same_tenant h =
        let key : String × String = (b.aggregate_type, b.aggregate_id) in
        record {
          scan = advance_all h.scan (first ∷ rest);
          scanned = rw get-put_self (
              scan_events-append rt scan_start h.scan (tenant_events s b.tenant_id) (first ∷ rest)
                h.scanned
              ∙ (rw batch at (scanned_batch h)));
          same_tenant = rw get-put_self (advance_all-tenant h.scan first rest);
          same_heads = λ k. ground (
            arith,
            advance_all-heads key h.scan first rest batch_keys k,
            get-put {K = String × (String × String)} (b.tenant_id, key) (b.tenant_id, k)
                (record {
                  sequence = (last_of first rest).aggregate_sequence;
                  record_hash = (last_of first rest).record_hash;
                })
                s.aggregate_heads,
            string_eq.beq_iff b.tenant_id b.tenant_id,
            h.same_heads k,
          );
          same_seen = advance_all-seen b.tenant_id (first ∷ rest) h.scan s.event_ids h.same_seen;
        }

    commit_other_tenant :
        (other : String)
        → b.tenant_id ≢ other
        → IsLinked rt other s
        → IsLinked rt other (commit_append b (first ∷ rest) projected s).1
    unfolding commit_append
    commit_other_tenant other ne h = record {
      scan = h.scan;
      scanned = rw (get-put_ne b.tenant_id other _ s.events ne) h.scanned;
      same_tenant = rw (get-put_ne b.tenant_id other _ s.tenant_heads ne) h.same_tenant;
      same_heads = λ k. ground (
        arith,
        get-put {K = String × (String × String)} (aggregate_key b) (other, k)
            (record {
              sequence = (last_of first rest).aggregate_sequence;
              record_hash = (last_of first rest).record_hash;
            })
            s.aggregate_heads,
        string_eq.beq_iff b.tenant_id other,
        h.same_heads k,
      );
      same_seen = λ i.
          h.same_seen i ∙ sym (add_ids-other b.tenant_id (first ∷ rest) s.event_ids other i ne);
    }

    pub commit-IsLinked :
        ((t : String) → IsLinked rt t s)
        → (t : String) → IsLinked rt t (commit_append b (first ∷ rest) projected s).1
    commit-IsLinked h t = elim (Bool-cases (string_eq.beq b.tenant_id t)) [
      | inl same ↦
          subst (λ u. IsLinked rt u (commit_append b (first ∷ rest) projected s).1)
            (beq-eq_true ⦃e = string_eq⦄ b.tenant_id t same) (commit_same_tenant (h b.tenant_id))
      | inr other ↦
          commit_other_tenant t (λ e. cc (other, (string_eq.beq_iff b.tenant_id t).1 e)) (h t)
    ]
