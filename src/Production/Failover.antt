-- ===== src/Production/Failover.antt =====
-- What `authorize_failover` authorises.
use aegis_framework_platform.Base.{
  ◌+◌, ◌≡◌, ◌≢◌, refl, sym, ap, ◌∙◌, true, false, arith, string_eq, nat_beq, ◌==◌, contains,
  policy_denied, ok, err,
}
use aegis_framework_platform.Production.{
  RegionTopology, validate_regions, FailoverAuthorization, validate_generation, ActiveRegion,
  authorize_failover,
}

accepted_parts :
    (t : RegionTopology) (a : FailoverAuthorization) (r : ActiveRegion)
    → authorize_failover t a ≡ ok r
    → (nat_beq a.expected_generation t.generation ≡ true)
      × ((a.source_region == t.writer_region) ≡ true)
      × (contains a.target_region t.standby_regions ≡ true)
      × (r.region ≡ a.target_region)
      × (r.generation ≡ a.next_generation)
      × (r.previous_home_region ≡ t.home_region)
unfolding authorize_failover
accepted_parts t a r h = ground arith

generation_parts :
    (a : FailoverAuthorization)
    → validate_generation a ≡ ok tt
    → (a.next_generation ≡ a.expected_generation + 1)
      × ((a.source_region == a.target_region) ≡ false)
unfolding validate_generation
generation_parts a h = ground arith

region_parts :
    (t : RegionTopology) → validate_regions t ≡ ok tt → (t.writer_region == t.home_region) ≡ true
unfolding validate_regions
region_parts t h = ground arith

module _ (t : RegionTopology) (a : FailoverAuthorization) (r : ActiveRegion)
    (topology : validate_regions t ≡ ok tt) (authorization : validate_generation a ≡ ok tt)
    (authorized : authorize_failover t a ≡ ok r) where
  -- A failover that is authorised, under a valid topology and with a valid authorization, advances
  -- the generation by one and makes a standby region, which is not the current writer, the region
  -- of the writer, whose previous home is the current writer.
  pub failover_fenced :
      (r.generation ≡ t.generation + 1)
      × (contains r.region t.standby_regions ≡ true)
      × (r.region ≢ t.writer_region)
      × (r.previous_home_region ≡ t.writer_region)
  failover_fenced =
      let (g, s, c, e, n, p) = accepted_parts t a r authorized in
      let (next, apart) = generation_parts a authorization in
      let writer : t.writer_region ≡ t.home_region =
        (string_eq.beq_iff t.writer_region t.home_region).0 (region_parts t topology) in
      let source : a.source_region ≡ t.writer_region =
        (string_eq.beq_iff a.source_region t.writer_region).0 s in
      (
        ground (arith, g, next, n),
        ap (λ x. contains x t.standby_regions) e ∙ c,
        λ same.
            cc (
              (string_eq.beq_iff a.source_region a.target_region).1 (source ∙ sym same ∙ e),
              apart,
            ),
        p ∙ sym writer,
      )

  -- After a failover that is authorised, under a valid topology and with a valid authorization, the
  -- same authorization is refused by every topology of the generation that it has led to.
  pub failover_once :
      (later : RegionTopology)
      → later.generation ≡ r.generation
      → authorize_failover later a ≡ err policy_denied
  failover_once later e =
      let (g, s, c, f, n, p) = accepted_parts t a r authorized in
      let (next, apart) = generation_parts a authorization in
      let stale : nat_beq a.expected_generation later.generation ≡ false =
        ground (arith, e, n, next) in
      unfold authorize_failover in rw stale refl
