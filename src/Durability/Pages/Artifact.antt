-- ===== src/Durability/Pages/Artifact.antt =====
-- `activity_artifact` of durability.py against one pass over a run's events.
use aegis_framework_platform.Base.{
  ℕ, zero, suc, ◌+◌, ◌-◌, ◌*◌, ◌≤◌, ◌<◌, String, ◌≡◌, refl, sym, ap, ◌∙◌, true, false, inl, inr,
  Bool-cases, Option, none, some, List, [], ◌∷◌, ◌++◌, arith, ltb, leb, if◌then◌else◌, length, take,
  drop, select, last_of, take_all, take-append_drop, length-take, length-append, integrity_failure,
  Result, ok, err,
}
use aegis_framework_platform.Runtime.{Runtime, Payload}
use aegis_framework_platform.Durability.{Durability, ApplicationEvent}
use aegis_framework_platform.Durability.Verify.{verify_integrity, run_events}
use aegis_framework_platform.Durability.Pages.{
  maximum_events, ArtifactScan, artifact_start, latest_of, last_cursor, Pass, ended, going,
  turn_page, read_page, none_left, page_limit_of, artifact_pass, artifact_loop, activity_artifact,
}
use aegis_framework_platform.Durability.Pages.Order.{
  event_cursor, IsIncreasing, behind, IsPage, take-IsPage, run_page-eq, run_events-IsIncreasing,
  select-behind_all, select-behind_later,
}

latest_of-append :
    (t : String) (xs ys : List ApplicationEvent) (latest : Option Payload)
    → latest_of t latest (xs ++ ys) ≡ latest_of t (latest_of t latest xs) ys
unfolding latest_of
latest_of-append t [] ys latest = refl
latest_of-append t (x ∷ xs) ys latest = latest_of-append t xs ys _

-- What one pass over the remaining events says.
abbrev outcome : String → ArtifactScan → List ApplicationEvent → Result (Option Payload)
outcome t v rest =
    if leb (v.scanned + length rest) maximum_events
    then ok (latest_of t v.latest rest)
    else err integrity_failure

-- Turning a full page keeps the outcome.
outcome-turn :
    (t : String) (v : ArtifactScan) (n last : ℕ) (rest : List ApplicationEvent)
    → outcome t
        (record {
          after_cursor = last;
          scanned = v.scanned + length (take n rest);
          latest = latest_of t v.latest (take n rest);
        })
        (drop n rest)
      ≡ outcome t v rest
outcome-turn t v n last rest =
    let parts : length (take n rest) + length (drop n rest) ≡ length rest =
      sym (length-append (take n rest) (drop n rest)) ∙ ap length (take-append_drop n rest) in
    let whole : latest_of t (latest_of t v.latest (take n rest)) (drop n rest)
        ≡ latest_of t v.latest rest =
      sym (latest_of-append t (take n rest) (drop n rest) v.latest)
      ∙ ap (latest_of t v.latest) (take-append_drop n rest) in
    rw whole (ground (arith, parts))

last_cursor-eq :
    (xs : List ApplicationEvent) {first : ApplicationEvent} {others : List ApplicationEvent}
    → xs ≡ first ∷ others
    → last_cursor xs ≡ ok (event_cursor (last_of first others))
unfolding last_cursor
last_cursor-eq xs taken = rw taken

-- Once the bound is reached, one more event is one too many.
none_left-outcome :
    (t : String) (v : ArtifactScan) (rest : List ApplicationEvent)
    → v.scanned ≡ maximum_events
    → none_left (take 1 rest) v.latest ≡ outcome t v rest
unfolding none_left latest_of
none_left-outcome t v [] bound = ground arith
none_left-outcome t v (x ∷ xs) bound = ground arith

module _ (s : Durability) (tenant_id run_id event_type : String) where
  -- The events that a scan has still to read.
  record IsLeft (v : ArtifactScan) (rest : List ApplicationEvent) : Type 0 where
    chosen : select (behind event_cursor v.after_cursor) (run_events s tenant_id run_id) ≡ rest
    ordered : IsIncreasing event_cursor v.after_cursor rest

  -- What a pass leaves: the outcome, or a later scan with the same outcome.
  data IsPass (v : ArtifactScan) (rest : List ApplicationEvent) : Pass → Type 0 where
    ends :
        {result : Result (Option Payload)}
        → result ≡ outcome event_type v rest
        → IsPass v rest (ended result)
    goes :
        {w : ArtifactScan} (left : List ApplicationEvent)
        → outcome event_type w left ≡ outcome event_type v rest
        → IsLeft w left
        → v.scanned < maximum_events
        → w.scanned ≡ v.scanned + page_limit_of v.scanned
        → IsPass v rest (going w)

  module _ (v : ArtifactScan) (rest : List ApplicationEvent) (here : IsLeft v rest) where
    -- A page that is not full is the last one.
    read_page-short :
        (n : ℕ)
        → length rest < n
        → v.scanned + n ≤ maximum_events
        → read_page event_type v n (ok (take n rest)) ≡ ended (outcome event_type v rest)
    unfolding read_page
    read_page-short n short low = rw (take_all n rest (omega arith)) (ground arith)

    read_page-full :
        (n : ℕ)
        → n ≡ page_limit_of v.scanned
        → v.scanned < maximum_events
        → n ≤ length rest
        → IsPage event_cursor v.after_cursor n rest
        → IsPass v rest (read_page event_type v n (ok (take n rest)))
    unfolding read_page turn_page
    read_page-full n limit more full page =
        let sized : length (take n rest) ≡ n = length-take n rest full in
        let whole : ltb (length (take n rest)) n ≡ false = rw sized (ground arith) in
        rw (whole, last_cursor-eq (take n rest) page.taken)
          (goes (drop n rest)
            (outcome-turn event_type v n (event_cursor (last_of page.first page.others)) rest)
            (record {
              chosen =
                  sym (
                    select-behind_later event_cursor v.after_cursor
                      (event_cursor (last_of page.first page.others))
                      (run_events s tenant_id run_id) (omega (arith, page.later)))
                  ∙ rw here.chosen page.behind_it;
              ordered = page.ordered;
            })
            more (omega (arith, sized, limit)))

    read_page-IsPass :
        (n : ℕ)
        → suc n ≡ page_limit_of v.scanned
        → v.scanned < maximum_events
        → IsPass v rest (read_page event_type v (suc n) (ok (take (suc n) rest)))
    read_page-IsPass n limit more = elim (Bool-cases (ltb (length rest) (suc n))) [
      | inl short ↦ rw (read_page-short (suc n) (ground arith) (ground arith)) (ends refl)
      | inr full ↦
          read_page-full (suc n) limit more (ground arith)
            (take-IsPage event_cursor v.after_cursor n rest here.ordered (ground arith))
    ]

    artifact_pass-IsPass :
        v.scanned ≤ maximum_events → IsPass v rest (artifact_pass s tenant_id run_id event_type v)
    unfolding artifact_pass
    artifact_pass-IsPass low = elim (Bool-cases (ltb v.scanned maximum_events)) [
      | inl more ↦
          let limit : suc (page_limit_of v.scanned - 1) ≡ page_limit_of v.scanned = ground arith in
          rw
            (
              more,
              run_page-eq s tenant_id run_id v.after_cursor (page_limit_of v.scanned) (ground arith)
                  (ground arith),
              here.chosen,
              ← limit,
            )
            (read_page-IsPass (page_limit_of v.scanned - 1) limit (ground arith))
      | inr bound ↦
          rw
            (
              bound,
              run_page-eq s tenant_id run_id v.after_cursor 1 (omega arith) (omega arith),
              here.chosen,
            )
            (ends (none_left-outcome event_type v rest (ground arith)))
    ]

  artifact_loop-eq :
      (fuel : ℕ) (v : ArtifactScan) (rest : List ApplicationEvent)
      → IsLeft v rest
      → v.scanned ≤ maximum_events
      → maximum_events + 500 ≤ v.scanned + 500 * fuel
      → artifact_loop fuel s tenant_id run_id event_type v ≡ some (outcome event_type v rest)
  unfolding artifact_loop
  artifact_loop-eq zero v rest here low enough = absurd (omega arith)
  artifact_loop-eq (suc fuel) v rest here low enough =
      step (artifact_pass s tenant_id run_id event_type v) (artifact_pass-IsPass v rest here low)
        refl (artifact_loop-eq fuel)
    where
      step :
          (p : Pass)
          → IsPass v rest p
          → artifact_pass s tenant_id run_id event_type v ≡ p
          → ((w : ArtifactScan) (left : List ApplicationEvent)
              → IsLeft w left
              → w.scanned ≤ maximum_events
              → maximum_events + 500 ≤ w.scanned + 500 * fuel
              → artifact_loop fuel s tenant_id run_id event_type w
                ≡ some (outcome event_type w left))
          → artifact_loop (suc fuel) s tenant_id run_id event_type v
            ≡ some (outcome event_type v rest)
      step (ended result) (ends e) is rec = rw (is, artifact_loop) (ap some e)
      step (going w) (goes left same there more counted) is rec =
          rw (is, artifact_loop)
            (rec w left there (ground (arith, counted)) (ground (arith, counted)) ∙ ap some same)

-- Where the hash chain of the tenant verifies, activity_artifact ends within its passes, and it
-- gives what one pass over all events of the run gives, the payload of the last event of the type,
-- if the run has at most ten thousand events, and an integrity failure if it has more.
pub activity_artifact-eq :
    (rt : Runtime) (s : Durability) (tenant_id run_id event_type : String)
    → verify_integrity rt s tenant_id ≡ true
    → activity_artifact s tenant_id run_id event_type
      ≡ some (
          if leb (length (run_events s tenant_id run_id)) 10000
          then ok (latest_of event_type none (run_events s tenant_id run_id))
          else err integrity_failure)
unfolding activity_artifact
activity_artifact-eq rt s tenant_id run_id event_type h =
    let runs = run_events s tenant_id run_id in
    let ordered = run_events-IsIncreasing rt s tenant_id run_id h in
    artifact_loop-eq s tenant_id run_id event_type 21 artifact_start runs
      (record {
        chosen = select-behind_all event_cursor 0 0 runs (omega arith) ordered;
        ordered = ordered;
      })
      (omega arith) (omega arith)
    ∙ ground arith
