-- ===== src/Interoperability/Ledger/Repeated.antt =====
-- `InteroperabilityLedger` of interoperability.py: commands that come again.
use aegis_framework_platform.Base.{
  String, ◌≡◌, refl, sym, ap, ◌∙◌, subst, not, inl, inr, Bool-cases, Option, none, some, List, [],
  ◌∷◌, ◌++◌, arith, ◌==◌, if◌then◌else◌, string_eq, pair_eq, beq_refl, Result, ok, err, ◌>>=◌, ◌>>◌,
  or_raise, >>=-eq-ok, raise_if-eq-ok, ok-injective, idempotency_conflict,
}
use aegis_framework_platform.Base.Dict.{get, get-put, get-put_self}
use aegis_framework_platform.Runtime.{Runtime}
use aegis_framework_platform.Interoperability.Documents.{Unicode, digest_value}
use aegis_framework_platform.Interoperability.Ledger.{
  InteroperabilityFact, InvocationProjection, InteroperabilityLedger, Recording, facts_of,
  fact_material, undigested, check_fact, check_new, check_repeated, first_of_command, build_fact,
  store_fact, stored, append_known, append_digested, append,
}
use aegis_framework_platform.Interoperability.Ledger.Chain.{LedgerReach, start, after}

first_of_command-append_new :
    (c : String) (xs : List InteroperabilityFact) (fact : InteroperabilityFact)
    → first_of_command c xs ≡ none
    → first_of_command c (xs ++ fact ∷ []) ≡ (if fact.command_ref == c then some fact else none)
unfolding first_of_command
first_of_command-append_new c [] fact h = refl
first_of_command-append_new c (x ∷ xs) fact h =
    ground (arith, first_of_command-append_new c xs fact)

module _ (u : Unicode) (rt : Runtime) where
  build_fact-command :
      (r : Recording) (facts : List InteroperabilityFact) (fact : InteroperabilityFact)
      → build_fact u rt r facts ≡ ok fact
      → fact.command_ref ≡ r.command_ref
  unfolding build_fact undigested
  build_fact-command r facts fact h =
      let (digest, hashed, checked) =
        >>=-eq-ok (digest_value u rt (fact_material u rt (undigested u rt r facts))) _ h in
      let (_, _, built) = >>=-eq-ok (check_fact u rt (undigested u rt r facts)) _ checked in
      ap (λ (x : InteroperabilityFact). x.command_ref) (sym (ok-injective built))

  -- A command that is not recorded has no fact.
  record IsRecorded (s : InteroperabilityLedger) : Type 0 where
    absent :
        (c operation_id : String)
        → get c s.commands ≡ none
        → first_of_command c (facts_of s operation_id) ≡ none

  store_fact-IsRecorded :
      (s : InteroperabilityLedger) (r : Recording) (payload_digest : String)
      (projection : Option InvocationProjection) (fact : InteroperabilityFact)
      → IsRecorded s
      → fact.command_ref ≡ r.command_ref
      → IsRecorded (store_fact u rt r payload_digest projection s fact)
  unfolding store_fact
  store_fact-IsRecorded s r payload_digest projection fact recorded named = record {
    absent = λ c operation_id h. elim (Bool-cases (string_eq.beq r.command_ref c)) [
      | inl same ↦ cc (rw (get-put, same) at h)
      | inr other ↦
          let before : get c s.commands ≡ none = rw (get-put, other) at h in
          elim (Bool-cases (string_eq.beq r.operation_id operation_id)) [
            | inl here ↦
                rw (get-put, here)
                  (first_of_command-append_new c (facts_of s r.operation_id) fact
                      (recorded.absent c r.operation_id before)
                    ∙ rw (named, other))
            | inr there ↦ rw (get-put, there) (recorded.absent c operation_id before)
          ]
    ];
  }

  -- What a new command's fact is, where there is one.
  new_fact-command :
      (r : Recording) (projection known : Option InvocationProjection)
      (facts : List InteroperabilityFact) (fact : InteroperabilityFact)
      → (build_fact u rt r facts >>= λ built. check_new projection known >> ok built) ≡ ok fact
      → fact.command_ref ≡ r.command_ref
  new_fact-command r projection known facts fact h =
      let (built, is, checked) = >>=-eq-ok (build_fact u rt r facts) _ h in
      let (_, _, same) = >>=-eq-ok (check_new projection known) _ checked in
      subst (λ (x : InteroperabilityFact). x.command_ref ≡ r.command_ref) (ok-injective same)
        (build_fact-command r facts built is)

  stored-IsRecorded :
      (s : InteroperabilityLedger) (r : Recording) (payload_digest : String)
      (projection : Option InvocationProjection) (result : Result InteroperabilityFact)
      → IsRecorded s
      → ((fact : InteroperabilityFact) → result ≡ ok fact → fact.command_ref ≡ r.command_ref)
      → IsRecorded (stored u rt r payload_digest projection result s).1
  unfolding stored
  stored-IsRecorded s r payload_digest projection (err e) recorded named = recorded
  stored-IsRecorded s r payload_digest projection (ok fact) recorded named =
      store_fact-IsRecorded s r payload_digest projection fact recorded (named fact refl)

  append_known-IsRecorded :
      (s : InteroperabilityLedger) (r : Recording) (payload_digest : String)
      (projection : Option InvocationProjection) (known : Option (String × String))
      → IsRecorded s
      → IsRecorded (append_known u rt r payload_digest projection known s).1
  unfolding append_known
  append_known-IsRecorded s r payload_digest projection (some existing) recorded = recorded
  append_known-IsRecorded s r payload_digest projection none recorded =
      stored-IsRecorded s r payload_digest projection _ recorded (
        new_fact-command r projection (get r.operation_id s.projections)
          (facts_of s r.operation_id))

  append_digested-IsRecorded :
      (s : InteroperabilityLedger) (r : Recording) (projection : Option InvocationProjection)
      (digest : Result String)
      → IsRecorded s
      → IsRecorded (append_digested u rt r projection digest s).1
  unfolding append_digested
  append_digested-IsRecorded s r projection (err e) recorded = recorded
  append_digested-IsRecorded s r projection (ok d) recorded =
      append_known-IsRecorded s r d projection (get r.command_ref s.commands) recorded

  LedgerReach-IsRecorded : {s : InteroperabilityLedger} → LedgerReach u rt s → IsRecorded s
  unfolding append get first_of_command
  LedgerReach-IsRecorded start = record { absent = λ c operation_id h. refl }
  LedgerReach-IsRecorded (after r projection reached) =
      append_digested-IsRecorded _ r projection _ (LedgerReach-IsRecorded reached)

  -- What a call returned, the same call returns again.
  Repeats :
      Recording
      → String
      → InteroperabilityFact
      → Result InteroperabilityFact × InteroperabilityLedger
      → Type 0
  Repeats r d fact (result, t) =
      result ≡ ok fact → append_known u rt r d none (get r.command_ref t.commands) t ≡ (ok fact, t)

  store_fact-facts :
      (s : InteroperabilityLedger) (r : Recording) (d : String)
      (projection : Option InvocationProjection) (x : InteroperabilityFact)
      → facts_of (store_fact u rt r d projection s x) r.operation_id
        ≡ facts_of s r.operation_id ++ x ∷ []
  unfolding store_fact
  store_fact-facts s r d projection x = rw get-put_self

  store_fact-commands :
      (s : InteroperabilityLedger) (r : Recording) (d : String)
      (projection : Option InvocationProjection) (x : InteroperabilityFact)
      → get r.command_ref (store_fact u rt r d projection s x).commands ≡ some (r.operation_id, d)
  unfolding store_fact
  store_fact-commands s r d projection x = rw get-put_self

  stored-Repeats :
      (s : InteroperabilityLedger) (r : Recording) (d : String)
      (projection : Option InvocationProjection) (fact : InteroperabilityFact)
      (result : Result InteroperabilityFact)
      → first_of_command r.command_ref (facts_of s r.operation_id) ≡ none
      → ((x : InteroperabilityFact) → result ≡ ok x → x.command_ref ≡ r.command_ref)
      → Repeats r d fact (stored u rt r d projection result s)
  unfolding Repeats stored append_known check_repeated or_raise
  stored-Repeats s r d projection fact (err e) absent named h = cc
  stored-Repeats s r d projection fact (ok x) absent named h =
      let same : x ≡ fact = ok-injective h in
      let found : first_of_command r.command_ref (facts_of s r.operation_id ++ x ∷ []) ≡ some x =
        first_of_command-append_new r.command_ref (facts_of s r.operation_id) x absent
        ∙ rw (named x refl, beq_refl ⦃e = string_eq⦄ r.command_ref) in
      rw (
        store_fact-commands,
        beq_refl ⦃e = pair_eq⦄ (r.operation_id, d),
        store_fact-facts,
        found,
        same,
      )

  append_known-Repeats :
      (s : InteroperabilityLedger) (r : Recording) (d : String)
      (projection : Option InvocationProjection) (fact : InteroperabilityFact)
      (known : Option (String × String))
      → IsRecorded s
      → get r.command_ref s.commands ≡ known
      → Repeats r d fact (append_known u rt r d projection known s)
  unfolding append_known Repeats check_repeated
  append_known-Repeats s r d projection fact none recorded is =
      stored-Repeats s r d projection fact _ (recorded.absent r.command_ref r.operation_id is) (
        new_fact-command r projection (get r.operation_id s.projections)
          (facts_of s r.operation_id))
  append_known-Repeats s r d projection fact (some existing) recorded is = again existing is
    where
      again :
          (known : String × String)
          → get r.command_ref s.commands ≡ some known
          → Repeats r d fact (append_known u rt r d projection (some known) s)
      again known is h =
          let (fits, rest) =
            raise_if-eq-ok (not (known == (r.operation_id, d))) idempotency_conflict _ h in
          let (_, _, found) =
            >>=-eq-ok (check_repeated projection (get r.operation_id s.projections)) _ rest in
          rw (is, fits, found)

  append_digested-Repeats :
      (s : InteroperabilityLedger) (r : Recording) (projection : Option InvocationProjection)
      (fact : InteroperabilityFact) (digest : Result String)
      → IsRecorded s
      → (append_digested u rt r projection digest s).0 ≡ ok fact
      → append_digested u rt r none digest (append_digested u rt r projection digest s).1
        ≡ (ok fact, (append_digested u rt r projection digest s).1)
  unfolding append_digested Repeats
  append_digested-Repeats s r projection fact (err e) recorded h = cc
  append_digested-Repeats s r projection fact (ok d) recorded h =
      append_known-Repeats s r d projection fact (get r.command_ref s.commands) recorded refl h

  -- In a ledger that appends have led to, a call of append that returns a fact, with a projection
  -- or without one, is answered with that fact when it comes again without a projection, and the
  -- repetition changes nothing.
  pub append_again :
      (s : InteroperabilityLedger) (r : Recording) (projection : Option InvocationProjection)
      (fact : InteroperabilityFact)
      → LedgerReach u rt s
      → (append u rt r projection s).0 ≡ ok fact
      → append u rt r none (append u rt r projection s).1
        ≡ (ok fact, (append u rt r projection s).1)
  unfolding append
  append_again s r projection fact reached h =
      append_digested-Repeats s r projection fact _ (LedgerReach-IsRecorded reached) h
