-- ===== src/Remediation/Ledger/Replay.antt =====
-- The projections of `InMemoryRemediationLedger` beside the facts that they come from.
use aegis_framework_platform.Base.{
  ◌+◌, String, ◌≡◌, refl, ap, ◌∙◌, inl, inr, Bool, true, Bool-cases, List, [], ◌∷◌, ◌++◌, some,
  none, Option, arith, string_eq, pair_eq, nat_beq, leb, length, integrity_failure,
  concurrency_conflict, value_error, ◌==◌, Error, Result, ok, err, or_raise, or_default, >>=-eq-ok,
  ◌>>=◌,
}
use aegis_framework_platform.Base.Dict.{get, put, get-put}
use aegis_framework_platform.Runtime.{Runtime}
use aegis_framework_platform.Remediation.{RemediationFact, RemediationProjection}
use aegis_framework_platform.Remediation.Reduce.{
  first_projection, next_projection, reduce_remediation, replay,
}
use aegis_framework_platform.Remediation.Reduce.Safety.{
  next_projection-Advanced, first_projection-status, needs_approval, any_grant, effects_need_grant,
}
use aegis_framework_platform.Remediation.Ledger.{
  is_invalid, Ledger, empty, max_facts, Command, plan_key, command_key, facts_at, last_digest,
  command_fingerprint, build_fact, replay_command, store_fact, append_fact, append_command, append,
  projection, rebuilt, rebuild,
}

module _ (rt : Runtime) where
  replay-append :
      (c : Option RemediationProjection) (p : Option RemediationProjection)
      (facts : List RemediationFact) (fact : RemediationFact)
      → replay rt c facts ≡ ok p
      → replay rt c (facts ++ (fact ∷ [])) ≡ (reduce_remediation rt p fact >>= λ q. ok (some q))
  unfolding replay
  replay-append c p [] fact h = let e : c ≡ p = cc in rw e refl
  replay-append c p (first ∷ rest) fact h =
      let (w, a, b) = >>=-eq-ok (reduce_remediation rt c first) _ h in
      rw a (replay-append (some w) p rest fact b)

  counted_since :
      (c : RemediationProjection) (p : RemediationProjection) (facts : List RemediationFact)
      → replay rt (some c) facts ≡ ok (some p)
      → p.version ≡ c.version + length facts
  unfolding replay reduce_remediation
  counted_since c p [] h = let e : c ≡ p = cc in rw e (omega arith)
  counted_since c p (fact ∷ rest) h =
      let (w, a, b) = >>=-eq-ok (next_projection rt c fact) _ h in
      let s = next_projection-Advanced rt c fact w a in
      omega (arith, counted_since w p rest b, s.version_of)

  -- What replaying some facts leaves: their number as the version.
  replay_counts :
      (p : RemediationProjection) (facts : List RemediationFact)
      → replay rt none facts ≡ ok (some p)
      → p.version ≡ length facts
  unfolding replay reduce_remediation
  replay_counts p [] h = cc
  replay_counts p (fact ∷ rest) h =
      let (w, a, b) = >>=-eq-ok (first_projection rt fact) _ h in
      let (_, v, _, _) = first_projection-status rt fact w a in
      omega (arith, counted_since w p rest b, v)

  linked_since :
      (c : RemediationProjection) (p : RemediationProjection) (fact : RemediationFact)
      (rest : List RemediationFact)
      → c.last_fact_digest ≡ fact.canonical_digest
      → replay rt (some c) rest ≡ ok (some p)
      → p.last_fact_digest ≡ last_digest (fact ∷ rest)
  unfolding replay reduce_remediation last_digest
  linked_since c p fact [] e h = let q : c ≡ p = cc in rw (← q) e
  linked_since c p fact (next ∷ rest) e h =
      let (w, a, b) = >>=-eq-ok (next_projection rt c next) _ h in
      linked_since w p next rest (next_projection-Advanced rt c next w a).digest_of b

  replay_links :
      (p : RemediationProjection) (facts : List RemediationFact)
      → replay rt none facts ≡ ok (some p)
      → p.last_fact_digest ≡ last_digest facts
  unfolding replay reduce_remediation
  replay_links p [] h = cc
  replay_links p (fact ∷ rest) h =
      let (w, a, b) = >>=-eq-ok (first_projection rt fact) _ h in
      let (_, _, d, _) = first_projection-status rt fact w a in linked_since w p fact rest d b

  pub record IsReplayed (s : Ledger) : Type 0 where
    pub replayed : (key : String × String) → replay rt none (facts_at s key) ≡ ok (projection s key)

  abbrev pub pair_beq : String × String → String × String → Bool
  pair_beq k j = (pair_eq ⦃e = string_eq⦄ ⦃f = string_eq⦄).beq k j

  -- A list that is set to what is read of it reads as before.
  pub facts_at-put :
      (s : Ledger) (k j : String × String)
      → or_default (get j (put k (facts_at s k) s.facts)) [] ≡ facts_at s j
  facts_at-put s k j = elim (Bool-cases (pair_beq k j)) [
    | inl same ↦ rw (get-put, same) (rw (← (pair_eq.beq_iff k j).0 same) refl)
    | inr other ↦ rw (get-put, other) refl
  ]

  -- `self._facts.setdefault(key, [])`
  abbrev pub opened : Command → Ledger → Ledger
  opened c s = record s { facts = put (plan_key c) (facts_at s (plan_key c)) s.facts }

  opened-IsReplayed : (c : Command) (s : Ledger) → IsReplayed s → IsReplayed (opened c s)
  opened-IsReplayed c s h = record {
    replayed = λ key. rw (facts_at-put s (plan_key c) key) (h.replayed key);
  }

  stored-IsReplayed :
      (c : Command) (s : Ledger) (p : RemediationProjection)
      → IsReplayed s
      → reduce_remediation rt
          (get (plan_key c) s.projections)
          (build_fact rt c (facts_at s (plan_key c)))
        ≡ ok p
      → IsReplayed (store_fact rt c (facts_at s (plan_key c)) (ok p) (opened c s)).1
  unfolding store_fact
  stored-IsReplayed c s p h f = record { replayed = at_key }
    where
      at_key :
          (key : String × String)
          → replay rt none (
              or_default
                (get key (
                  put
                    (plan_key c)
                    (facts_at s (plan_key c) ++ (build_fact rt c (facts_at s (plan_key c)) ∷ []))
                    (opened c s).facts))
                [])
            ≡ ok (get key (put (plan_key c) p s.projections))
      at_key key = elim (Bool-cases (pair_beq (plan_key c) key)) [
        | inl same ↦
            rw (get-put, same)
              (rw (get-put, same)
                (replay-append none (get (plan_key c) s.projections) (facts_at s (plan_key c))
                    (build_fact rt c (facts_at s (plan_key c))) (h.replayed (plan_key c))
                  ∙ rw f refl))
        | inr other ↦
            rw (get-put, other) (rw (get-put, other) (rw (get-put, other) (h.replayed key)))
      ]

  -- What an append of a new command comes to: it raises, and only an empty list of facts may have
  -- been entered, or the reduction accepts the new fact and it is stored.
  module _ (c : Command) (s : Ledger) (Q : Result RemediationProjection × Ledger → Type 0)
      (rejected : (e : Error) → Q (err e, opened c s))
      (stored : (p : RemediationProjection)
        → length (facts_at s (plan_key c)) ≡ c.expected_version
        → reduce_remediation rt
            (get (plan_key c) s.projections)
            (build_fact rt c (facts_at s (plan_key c)))
          ≡ ok p
        → Q (store_fact rt c (facts_at s (plan_key c)) (ok p) (opened c s))) where
    by_reduced :
        (r : Result RemediationProjection)
        → length (facts_at s (plan_key c)) ≡ c.expected_version
        → reduce_remediation rt
            (get (plan_key c) s.projections)
            (build_fact rt c (facts_at s (plan_key c)))
          ≡ r
        → Q (store_fact rt c (facts_at s (plan_key c)) r (opened c s))
    by_reduced (ok p) v e = stored p v e
    by_reduced (err x) v e = unfold store_fact in rejected x

    pub append_fact-cases : Q (append_fact rt c (facts_at s (plan_key c)) (opened c s))
    unfolding append_fact
    append_fact-cases = elim (Bool-cases (leb max_facts (length (facts_at s (plan_key c))))) [
      | inl full ↦ rw full (rejected integrity_failure)
      | inr room ↦
          rw room
            (elim (Bool-cases (nat_beq (length (facts_at s (plan_key c))) c.expected_version)) [
              | inr moved ↦ rw moved (rejected concurrency_conflict)
              | inl current ↦ rw current (elim (Bool-cases (is_invalid c)) [
                | inl large ↦ rw large (rejected value_error)
                | inr small ↦ rw small (by_reduced _ (ground arith) refl)
              ])
            ])
    ]

  append-IsReplayed : (c : Command) (s : Ledger) → IsReplayed s → IsReplayed (append rt c s).1
  unfolding append append_command replay_command
  append-IsReplayed c s h = by_command (get (command_key c) s.commands)
    where
      by_command : (o : Option (String × String)) → IsReplayed (append_command rt c o s).1
      by_command none =
          append_fact-cases c s (λ r. IsReplayed r.1) (λ e. opened-IsReplayed c s h)
            (λ p v f. stored-IsReplayed c s p h f)
      by_command (some existing) =
          elim (Bool-cases (existing == (c.plan_id, command_fingerprint rt c))) [
            | inl same ↦ rw same h
            | inr other ↦ rw other h
          ]

-- The stores that commands lead to, from a given one.
pub data LedgerReach (rt : Runtime) (s : Ledger) : Ledger → Type 0 where
  start : LedgerReach rt s s
  after : {t : Ledger} (c : Command) → LedgerReach rt s t → LedgerReach rt s (append rt c t).1

module _ (rt : Runtime) (s : Ledger) (reach : LedgerReach rt empty s) (key : String × String) where
  LedgerReach-IsReplayed : (t : Ledger) → LedgerReach rt empty t → IsReplayed rt t
  unfolding replay get
  LedgerReach-IsReplayed _ start = record { replayed = λ k. refl }
  LedgerReach-IsReplayed _ (after {t = t} c r) =
      append-IsReplayed rt c t (LedgerReach-IsReplayed t r)

  -- In a ledger that commands have led to, rebuilding a plan from its facts returns the stored
  -- projection, or raises an integrity failure where there is none.
  pub rebuild_agrees : rebuild rt s key ≡ or_raise (projection s key) integrity_failure
  unfolding rebuild rebuilt or_raise
  rebuild_agrees =
      rw ((LedgerReach-IsReplayed s reach).replayed key) (by_projection (projection s key))
    where
      by_projection :
          (o : Option RemediationProjection) → rebuilt rt (ok o) ≡ or_raise o integrity_failure
      by_projection none = refl
      by_projection (some p) = refl

  module _ (p : RemediationProjection) (stored : projection s key ≡ some p) where
    is_replay : replay rt none (facts_at s key) ≡ ok (some p)
    is_replay = (LedgerReach-IsReplayed s reach).replayed key ∙ ap ok stored

    -- In a ledger that commands have led to, the version of a plan that has a projection is the
    -- number of its facts, and its digest is that of the last of them.
    pub version_counts :
        (p.version ≡ length (facts_at s key)) × (p.last_fact_digest ≡ last_digest (facts_at s key))
    version_counts = (
      replay_counts rt p (facts_at s key) is_replay,
      replay_links rt p (facts_at s key) is_replay,
    )

    -- In a ledger that commands have led to, a plan whose stored status is beyond the approval
    -- (none of proposed, approval pending, denied, expired, revoked and cancelled) has a fact that
    -- grants it.
    pub stored_effects_need_grant :
        needs_approval p.status ≡ true → any_grant (facts_at s key) ≡ true
    stored_effects_need_grant n = effects_need_grant rt (facts_at s key) p is_replay n
