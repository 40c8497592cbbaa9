-- ===== src/Durability/Invariant.antt =====
-- What holds of an `InMemoryDurability` between two calls, and what its guards establish.
pub mod Appends
pub mod Projects
pub mod Preserved
pub mod Commanded
use aegis_framework_platform.Base.{
  ℕ, String, ◌≡◌, refl, false, true, Option, List, [], Error, Result, ok, err, arith, contains,
  all_distinct, string_eq, pair_eq, some, none,
}
use aegis_framework_platform.Base.Dict.{Dict, get}
use aegis_framework_platform.Runtime.{Runtime}
use aegis_framework_platform.Durability.{
  Durability, init, IdempotencyRecord, DeliveryRecord, RunView, ApplicationEvent, tenant_events,
  aggregate_head, tenant_head,
}
use aegis_framework_platform.Durability.Reduce.{reduce_runs}
use aegis_framework_platform.Durability.Append.{
  Batch, aggregate_key, check_append, any_recorded, event_ids_of, project_events, batch_events,
  commit_append, commit_projected, checked_append, append_locked,
}
use aegis_framework_platform.Durability.Verify.{
  Scan, scan_head, scan_start, scan_events, run_events,
}

module _ (rt : Runtime) where
  -- The tenant's chain verifies, and what the verification ends with is what the store's heads
  -- and its set of identifiers say.
  pub record IsLinked (tenant_id : String) (s : Durability) : Type 0 where
    pub scan : Scan
    pub scanned : scan_events rt scan_start (tenant_events s tenant_id) ≡ some scan
    pub same_tenant : scan.tenant ≡ tenant_head s tenant_id
    pub same_heads : (k : String × String) → scan_head scan k ≡ aggregate_head s (tenant_id, k)
    pub same_seen : (i : String) → contains i scan.seen ≡ contains (tenant_id, i) s.event_ids

  -- Every stored view is the reduction of its run's events.
  pub record IsProjected (s : Durability) : Type 0 where
    pub reduced :
        (tenant_id run_id : String)
        → reduce_runs rt none (run_events s tenant_id run_id) ≡ ok (get (tenant_id, run_id) s.runs)

  pub record IsConsistent (s : Durability) : Type 0 where
    pub linked : (tenant_id : String) → IsLinked tenant_id s
    pub projected : IsProjected s

  pub init-IsConsistent : IsConsistent init
  unfolding scan_events reduce_runs get contains
  init-IsConsistent = record {
    linked = λ tenant_id. record {
      scan = scan_start;
      scanned = refl;
      same_tenant = refl;
      same_heads = λ k. refl;
      same_seen = λ i. refl;
    };
    projected = record { reduced = λ tenant_id run_id. refl };
  }

  -- What is only in the command records and the deliveries is not part of it.
  pub IsConsistent-same :
      (s : Durability) (idempotency : Dict (String × String) IdempotencyRecord)
      (deliveries : Dict (String × (String × String)) DeliveryRecord)
      → IsConsistent s
      → IsConsistent (record s { idempotency = idempotency; deliveries = deliveries })
  IsConsistent-same s idempotency deliveries h = record {
    linked = λ tenant_id.
        let l = h.linked tenant_id in
        record {
          scan = l.scan;
          scanned = l.scanned;
          same_tenant = l.same_tenant;
          same_heads = l.same_heads;
          same_seen = l.same_seen;
        };
    projected = record { reduced = h.projected.reduced };
  }

-- The guards of `check_append`, as facts about an accepted batch.
pub record IsAdmitted (b : Batch) (s : Durability) : Type 0 where
  pub version : (aggregate_head s (aggregate_key b)).sequence ≡ b.expected_version
  pub distinct : all_distinct (event_ids_of b.drafts) ≡ true
  pub new : any_recorded b.tenant_id s.event_ids (event_ids_of b.drafts) ≡ false

abbrev pub checked : Batch → Durability → Result (Unit {0})
checked b s =
    check_append s b.tenant_id (aggregate_key b) b.expected_version b.drafts b.outbox b.inbox

pub checked-IsAdmitted : (b : Batch) (s : Durability) → checked b s ≡ ok tt → IsAdmitted b s
unfolding check_append
checked-IsAdmitted b s h = record {
  version = ground arith;
  distinct = ground arith;
  new = ground arith;
}

-- An append either rejects the batch and returns the store as it was, or it commits the batch.
module _ (rt : Runtime) (Q : Result (List ApplicationEvent) × Durability → Type 0) (b : Batch)
    (s : Durability) (rejected : (e : Error) → Q (err e, s)) where
  module _
      (committed : (projected : Dict (String × String) RunView)
        → checked b s ≡ ok tt
        → project_events rt s.runs [] (batch_events rt b s) ≡ ok projected
        → Q (commit_append b (batch_events rt b s) projected s)) where
    cases_projected :
        checked b s ≡ ok tt
        → (p : Result (Dict (String × String) RunView))
        → project_events rt s.runs [] (batch_events rt b s) ≡ p
        → Q (commit_projected b (batch_events rt b s) p s)
    unfolding commit_projected
    cases_projected h (ok projected) f = committed projected h f
    cases_projected h (err e) f = rejected e

    cases_checked : (r : Result (Unit {0})) → checked b s ≡ r → Q (checked_append rt b r s)
    unfolding checked_append
    cases_checked (ok u) h =
        cases_projected h (project_events rt s.runs [] (batch_events rt b s)) refl
    cases_checked (err e) h = rejected e

    pub append_locked-cases : Q (append_locked rt b s)
    unfolding append_locked
    append_locked-cases = cases_checked (checked b s) refl
