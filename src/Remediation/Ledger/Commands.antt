-- ===== src/Remediation/Ledger/Commands.antt =====
-- Commands of `InMemoryRemediationLedger` that raise, and commands that are sent again.
use aegis_framework_platform.Base.{
  String, ◌≡◌, refl, ap, ◌≢◌, inl, inr, Bool-cases, some, none, Option, string_eq, pair_eq,
  beq_refl, beq-eq_false, idempotency_conflict, key_error, Result, ok, err, or_raise, ◌==◌,
}
use aegis_framework_platform.Base.Dict.{get, get-put, get-put_self}
use aegis_framework_platform.Runtime.{Runtime}
use aegis_framework_platform.Remediation.{RemediationProjection}
use aegis_framework_platform.Remediation.Ledger.{
  Ledger, Command, plan_key, command_key, facts_at, command_fingerprint, replay_command, store_fact,
  append_command, append, projection,
}
use aegis_framework_platform.Remediation.Ledger.Replay.{
  pair_beq, facts_at-put, opened, append_fact-cases, LedgerReach, start, after,
}

module _ (rt : Runtime) where
  -- Two ledgers that no method tells apart.
  pub record ReadsAs (s t : Ledger) : Type 0 where
    pub same_facts : (key : String × String) → facts_at t key ≡ facts_at s key
    pub same_commands : t.commands ≡ s.commands
    pub same_projections : t.projections ≡ s.projections

  -- The outcome of a call that changed nothing to be read if it raised.
  abbrev pub Unread : Ledger → Result RemediationProjection × Ledger → Type 0
  Unread s (ok p, t) = Unit
  Unread s (err e, t) = ReadsAs s t

  -- An append that raises leaves every list of facts, the commands and the projections as they were
  -- to read.
  pub append-Unread : (c : Command) (s : Ledger) → Unread s (append rt c s)
  unfolding append append_command
  append-Unread c s = by_command (get (command_key c) s.commands)
    where
      by_command : (o : Option (String × String)) → Unread s (append_command rt c o s)
      by_command none =
          append_fact-cases rt c s (Unread s)
            (λ e. record {
              same_facts = facts_at-put rt s (plan_key c);
              same_commands = refl;
              same_projections = refl;
            })
            (λ p v f. unfold store_fact in tt)
      by_command (some existing) =
          unfold replay_command in
          elim (Bool-cases (existing == (c.plan_id, command_fingerprint rt c))) [
            | inl same ↦ rw same (by_projection (get (plan_key c) s.projections))
            | inr other ↦ rw other reads
          ]
        where
          reads : ReadsAs s s
          reads = record { same_facts = λ k. refl; same_commands = refl; same_projections = refl }

          by_projection : (o : Option RemediationProjection) → Unread s (or_raise o key_error, s)
          by_projection none = unfold or_raise in reads
          by_projection (some p) = unfold or_raise in tt

  abbrev pub input_of : Command → String × String
  input_of c = (c.plan_id, command_fingerprint rt c)

  -- The command has been carried out: its input is recorded, and its plan has a projection.
  pub record IsRecorded (c : Command) (s : Ledger) : Type 0 where
    pub command : get (command_key c) s.commands ≡ some (c.plan_id, command_fingerprint rt c)
    pub plan : (p : RemediationProjection) × (projection s (plan_key c) ≡ some p)

  module _ (c d : Command) (s : Ledger) (h : IsRecorded c s)
      (new : get (command_key d) s.commands ≡ none) where
    stored-IsRecorded :
        (p : RemediationProjection)
        → IsRecorded c (store_fact rt d (facts_at s (plan_key d)) (ok p) (opened rt d s)).1
    unfolding store_fact
    stored-IsRecorded p = record {
      command = elim (Bool-cases (pair_beq rt (command_key d) (command_key c))) [
        | inl same ↦
            let e : command_key d ≡ command_key c =
              (pair_eq.beq_iff (command_key d) (command_key c)).0 same in
            absurd (cc (new, h.command, ap (λ k. get k s.commands) e))
        | inr other ↦ rw (get-put, other) h.command
      ];
      plan = elim (Bool-cases (pair_beq rt (plan_key d) (plan_key c))) [
        | inl same ↦ (p, rw (get-put, same) refl)
        | inr other ↦ (h.plan.0, rw (get-put, other) h.plan.1)
      ];
    }

  append-IsRecorded : (c d : Command) (s : Ledger) → IsRecorded c s → IsRecorded c (append rt d s).1
  unfolding append append_command replay_command
  append-IsRecorded c d s h = by_command (get (command_key d) s.commands) refl
    where
      by_command :
          (o : Option (String × String))
          → get (command_key d) s.commands ≡ o
          → IsRecorded c (append_command rt d o s).1
      by_command none new =
          append_fact-cases rt d s (λ r. IsRecorded c r.1)
            (λ e. record { command = h.command; plan = h.plan })
            (λ p v f. stored-IsRecorded c d s h new p)
      by_command (some existing) e =
          elim (Bool-cases (existing == (d.plan_id, command_fingerprint rt d))) [
            | inl same ↦ rw same h
            | inr other ↦ rw other h
          ]

  LedgerReach-IsRecorded :
      (c : Command) (s t : Ledger) → IsRecorded c s → LedgerReach rt s t → IsRecorded c t
  LedgerReach-IsRecorded c s _ h start = h
  LedgerReach-IsRecorded c s _ h (after {t = t} d r) =
      append-IsRecorded c d t (LedgerReach-IsRecorded c s t h r)

  -- The outcome of a command that is recorded if it returns.
  abbrev RecordedIf : Command → Result RemediationProjection × Ledger → Type 0
  RecordedIf c (ok p, t) = IsRecorded c t
  RecordedIf c (err e, t) = Unit

  append-RecordedIf :
      (c : Command) (s : Ledger)
      → get (command_key c) s.commands ≡ none
      → RecordedIf c (append rt c s)
  unfolding append append_command
  append-RecordedIf c s new = rw new (
      append_fact-cases rt c s (RecordedIf c) (λ e. tt)
        (λ p v f.
          unfold store_fact in
          record {
            command = get-put_self (command_key c) _ s.commands;
            plan = (p, get-put_self (plan_key c) p s.projections);
          }))

  first-IsRecorded :
      (c : Command) (s : Ledger) (p : RemediationProjection)
      → get (command_key c) s.commands ≡ none
      → (append rt c s).0 ≡ ok p
      → IsRecorded c (append rt c s).1
  first-IsRecorded c s p new e = by_outcome (append rt c s) (append-RecordedIf c s new) e
    where
      by_outcome :
          (r : Result RemediationProjection × Ledger)
          → RecordedIf c r
          → r.0 ≡ ok p
          → IsRecorded c r.1
      by_outcome (ok q, t) h e = h
      by_outcome (err x, t) h e = cc

  -- After a new command has returned, and any commands have followed it, the same command writes
  -- nothing and returns the current projection of its plan, and a command of the same id with
  -- another plan or another input is refused as a conflict and writes nothing.
  pub append_once :
      (c : Command) (s t : Ledger) (p : RemediationProjection)
      → get (command_key c) s.commands ≡ none
      → (append rt c s).0 ≡ ok p
      → LedgerReach rt (append rt c s).1 t
      → ((q : RemediationProjection) × (projection t (plan_key c) ≡ some q)
          × (append rt c t ≡ (ok q, t)))
        × ((d : Command)
            → command_key c ≡ command_key d
            → input_of c ≢ input_of d
            → append rt d t ≡ (err idempotency_conflict, t))
  unfolding append append_command replay_command or_raise
  append_once c s t p new e reach =
      let h = LedgerReach-IsRecorded c _ t (first-IsRecorded c s p new e) reach in
      (
        (
          h.plan.0,
          h.plan.1,
          rw (h.command) (
              rw (beq_refl ⦃e = pair_eq ⦃e = string_eq⦄ ⦃f = string_eq⦄⦄ (input_of c))
                (rw h.plan.1 refl)),
        ),
        λ d same other. rw (← same) (
            rw h.command (
              rw
                (beq-eq_false ⦃e = pair_eq ⦃e = string_eq⦄ ⦃f = string_eq⦄⦄ (input_of c)
                  (input_of d) other)
                refl)),
      )
