-- ===== src/Remediation/Reduce/Safety.antt =====
-- What a projection's status says of its facts.
use aegis_framework_platform.Base.{
  ◌+◌, ◌≡◌, refl, sym, ap, ◌∙◌, subst, ◌⊎◌, inl, inr, Bool, true, false, not, ◌||◌, ◌==◌, List, [],
  ◌∷◌, some, none, arith, string_eq, nat_beq, integrity_failure, ok, >>=-eq-ok, raise_if,
}
use aegis_framework_platform.Runtime.{Runtime}
use aegis_framework_platform.Remediation.{
  RemediationStatus, RemediationFactType, RemediationFact, RemediationProjection, proposed,
  approval_pending, approved, denied, expired, revoked, cancelled, approval_granted,
}
use aegis_framework_platform.Remediation.Reduce.{
  status_by_fact, is_allowed, is_proposal, validate_transition, with_approval, with_receipt,
  with_verification, first_projection, next_projection, reduce_remediation, replay,
}

module _ (rt : Runtime) where
  with_receipt-kept :
      (fact : RemediationFact) (p : RemediationProjection)
      → let q = with_verification fact (with_receipt fact p) in
        (q.status ≡ p.status)
        × (q.version ≡ p.version)
        × (q.last_fact_digest ≡ p.last_fact_digest)
        × (q.tenant_id ≡ p.tenant_id)
        × (q.plan_id ≡ p.plan_id)
  unfolding with_receipt with_verification
  with_receipt-kept fact p = ground arith

  with_approval-kept :
      (fact : RemediationFact) (p q : RemediationProjection)
      → with_approval rt fact p ≡ ok q
      → (q.status ≡ p.status)
        × (q.version ≡ p.version)
        × (q.last_fact_digest ≡ p.last_fact_digest)
        × (q.tenant_id ≡ p.tenant_id)
        × (q.plan_id ≡ p.plan_id)
  unfolding with_approval
  with_approval-kept fact p q h = ground arith

  -- What an accepted fact leaves.
  pub record Advanced (current : RemediationProjection) (fact : RemediationFact)
      (next : RemediationProjection) : Type 0 where
    pub contiguous : fact.sequence ≡ current.version + 1
    pub version_of : next.version ≡ current.version + 1
    pub chained : fact.previous_digest ≡ current.last_fact_digest
    pub digest_of : next.last_fact_digest ≡ fact.canonical_digest
    pub status_of : next.status ≡ status_by_fact fact.fact_type
    pub permitted : is_allowed current.status next.status ≡ true

  pub next_projection-Advanced :
      (current : RemediationProjection) (fact : RemediationFact) (next : RemediationProjection)
      → next_projection rt current fact ≡ ok next
      → Advanced current fact next
  unfolding next_projection validate_transition
  next_projection-Advanced current fact next h =
      let (a, seq, h₁) =
        >>=-eq-ok (raise_if (not (nat_beq fact.sequence (current.version + 1))) integrity_failure) _
          h in
      let (b, prev, h₂) =
        >>=-eq-ok
          (raise_if (not (fact.previous_digest == current.last_fact_digest)) integrity_failure) _
          h₁ in
      let (c, per, h₃) =
        >>=-eq-ok (validate_transition current.status (status_by_fact fact.fact_type)) _ h₂ in
      let (d, app, h₄) = >>=-eq-ok (with_approval rt fact _) _ h₃ in
      let (s₁, v₁, f₁, _, _) = with_approval-kept fact _ d app in
      let (s₂, v₂, f₂, _, _) = with_receipt-kept fact d in
      let is_next : with_verification fact (with_receipt fact d) ≡ next = cc in
      let e : next.status ≡ status_by_fact fact.fact_type = cc in
      let seq' : fact.sequence ≡ current.version + 1 = ground (arith, seq) in
      record {
        contiguous = seq';
        version_of = cc (is_next, v₂, v₁, seq');
        chained = ground (arith, string_eq.beq_iff fact.previous_digest current.last_fact_digest);
        digest_of = cc;
        status_of = e;
        permitted = rw e (ground arith);
      }

  -- The first fact is the proposal, whatever its sequence number.
  pub first_projection-status :
      (fact : RemediationFact) (p : RemediationProjection)
      → first_projection rt fact ≡ ok p
      → (p.status ≡ proposed)
        × (p.version ≡ 1)
        × (p.last_fact_digest ≡ fact.canonical_digest)
        × (is_proposal fact.fact_type ≡ true)
  unfolding first_projection status_by_fact
  first_projection-status fact p h = ground arith

-- The statuses that only an approval leads to.
abbrev pub needs_approval : RemediationStatus → Bool
needs_approval proposed = false
needs_approval approval_pending = false
needs_approval denied = false
needs_approval expired = false
needs_approval revoked = false
needs_approval cancelled = false
needs_approval _ = true

abbrev pub is_grant : RemediationFactType → Bool
is_grant approval_granted = true
is_grant _ = false

-- `any(fact.fact_type is APPROVAL_GRANTED for fact in facts)`
unfoldable pub any_grant : List RemediationFact → Bool
any_grant [] = false
any_grant (fact ∷ rest) = is_grant fact.fact_type || any_grant rest

to_approved :
    (previous current : RemediationStatus)
    → needs_approval current ≡ true
    → is_allowed previous current ≡ true
    → (needs_approval previous ≡ true) ⊎ (current ≡ approved)
unfolding is_allowed
to_approved approval_pending approved n a = inr refl
to_approved approval_pending current n a = ground arith
to_approved proposed current n a = ground arith
to_approved denied current n a = cc
to_approved expired current n a = cc
to_approved revoked current n a = cc
to_approved cancelled current n a = cc
to_approved _ current n a = inl refl

fact_of_approved : (t : RemediationFactType) → status_by_fact t ≡ approved → is_grant t ≡ true
unfolding status_by_fact
fact_of_approved approval_granted e = refl
fact_of_approved t e = ground arith

module _ (rt : Runtime) where
  grant_since :
      (current : RemediationProjection) (facts : List RemediationFact) (p : RemediationProjection)
      → replay rt (some current) facts ≡ ok (some p)
      → needs_approval p.status ≡ true
      → (needs_approval current.status ≡ true) ⊎ (any_grant facts ≡ true)
  unfolding replay reduce_remediation any_grant
  grant_since current [] p h n =
      let e : current ≡ p = cc in
      inl (subst (λ (q : RemediationProjection). needs_approval q.status ≡ true) (sym e) n)
  grant_since current (fact ∷ rest) p h n =
      let (w, a, b) = >>=-eq-ok (next_projection rt current fact) _ h in
      let s = next_projection-Advanced rt current fact w a in
      elim (grant_since w rest p b n) [
        | inr later ↦ inr (ground (arith, later))
        | inl at_w ↦ (elim (to_approved current.status w.status at_w s.permitted) [
          | inl before ↦ inl before
          | inr now ↦
              let grant : is_grant fact.fact_type ≡ true =
                fact_of_approved fact.fact_type (sym s.status_of ∙ now) in
              inr (ground (arith, grant))
        ])
      ]

  -- A plan whose projection has gone beyond its approval, in whatever direction, has a fact that
  -- grants the approval among its facts.
  pub effects_need_grant :
      (facts : List RemediationFact) (p : RemediationProjection)
      → replay rt none facts ≡ ok (some p)
      → needs_approval p.status ≡ true
      → any_grant facts ≡ true
  unfolding replay reduce_remediation any_grant
  effects_need_grant [] p h n = cc
  effects_need_grant (fact ∷ rest) p h n =
      let (w, a, b) = >>=-eq-ok (first_projection rt fact) _ h in
      let (e, _, _, _) = first_projection-status rt fact w a in
      elim (grant_since w rest p b n) [
        | inr later ↦ ground (arith, later)
        | inl at_w ↦ absurd (cc (at_w, ap needs_approval e))
      ]
