-- ===== src/Interoperability/Ledger/Chain.antt =====
-- `InteroperabilityLedger` of interoperability.py: its facts as a chain, and its commands.
use aegis_framework_platform.Base.{
  ℕ, suc, ◌+◌, String, ◌≡◌, refl, sym, ◌∙◌, subst, ◌≢◌, true, false, not, ◌||◌, inl, inr,
  Bool-cases, Option, none, some, List, [], ◌∷◌, ◌++◌, arith, nat_beq, ◌==◌, string_eq, pair_eq,
  beq_refl, length, last_of, Result, ok, err, ◌>>=◌, >>=-eq-ok, ok-injective,
}
use aegis_framework_platform.Base.Dict.{get, get-put}
use aegis_framework_platform.Runtime.{Runtime}
use aegis_framework_platform.Interoperability.Documents.{Unicode, digest_value}
use aegis_framework_platform.Interoperability.Ledger.{
  InteroperabilityFact, InvocationProjection, InteroperabilityLedger, no_facts, Recording,
  genesis_digest, facts_of, newest_digest, fact_material, undigested, check_fact, check_new,
  build_fact, store_fact, stored, append_known, append_digested, append, verify_facts, verify,
}

false-ne-true : false ≢ true
false-ne-true h = cc h

-- The digest that the next fact names.
abbrev digest_after : String → List InteroperabilityFact → String
digest_after previous [] = previous
digest_after previous (fact ∷ rest) = digest_after fact.fact_digest rest

digest_after-last :
    (fact : InteroperabilityFact) (rest : List InteroperabilityFact)
    → digest_after fact.fact_digest rest ≡ (last_of fact rest).fact_digest
digest_after-last fact [] = refl
digest_after-last fact (x ∷ rest) = digest_after-last x rest

newest_digest-eq :
    (facts : List InteroperabilityFact) → newest_digest facts ≡ digest_after genesis_digest facts
unfolding newest_digest
newest_digest-eq [] = refl
newest_digest-eq (fact ∷ rest) = sym (digest_after-last fact rest)

module _ (u : Unicode) (rt : Runtime) where
  -- A fact that comes next behind others.
  record IsNext (facts : List InteroperabilityFact) (fact : InteroperabilityFact) : Type 0 where
    counted : fact.sequence ≡ suc (length facts)
    linked : fact.previous_digest ≡ newest_digest facts
    digested : digest_value u rt (fact_material u rt fact) ≡ ok fact.fact_digest

  build_fact-IsNext :
      (r : Recording) (facts : List InteroperabilityFact) (fact : InteroperabilityFact)
      → build_fact u rt r facts ≡ ok fact
      → IsNext facts fact
  unfolding build_fact undigested fact_material
  build_fact-IsNext r facts fact h =
      let (digest, hashed, checked) =
        >>=-eq-ok (digest_value u rt (fact_material u rt (undigested u rt r facts))) _ h in
      let (_, _, built) = >>=-eq-ok (check_fact u rt (undigested u rt r facts)) _ checked in
      rw (← ok-injective built) (record { counted = refl; linked = refl; digested = hashed })

  verify_facts-append :
      (xs : List InteroperabilityFact) (fact : InteroperabilityFact) (n : ℕ) (previous : String)
      → verify_facts u rt n previous xs ≡ ok true
      → fact.sequence ≡ n + length xs
      → fact.previous_digest ≡ digest_after previous xs
      → digest_value u rt (fact_material u rt fact) ≡ ok fact.fact_digest
      → verify_facts u rt n previous (xs ++ fact ∷ []) ≡ ok true
  unfolding verify_facts
  verify_facts-append [] fact n previous h counted linked digested = rw digested (
      ground (
        arith,
        counted,
        linked,
        string_eq.beq_iff fact.previous_digest previous,
        beq_refl ⦃e = string_eq⦄ fact.fact_digest,
      ))
  verify_facts-append (x ∷ xs) fact n previous h counted linked digested =
      elim (Bool-cases (not (nat_beq x.sequence n) || not (x.previous_digest == previous))) [
        | inl stale ↦ absurd (false-ne-true (ok-injective (rw stale at h)))
        | inr fits ↦
            let (digest, hashed, same) =
              >>=-eq-ok (digest_value u rt (fact_material u rt x)) _ (rw fits at h) in
            elim (Bool-cases (not (digest == x.fact_digest))) [
              | inl forged ↦ absurd (false-ne-true (ok-injective (rw forged at same)))
              | inr own ↦
                  rw (fits, hashed, ◌>>=◌, own)
                    (verify_facts-append xs fact (n + 1) x.fact_digest (rw own at same)
                      (omega (arith, counted)) linked digested)
            ]
      ]

  -- Every operation's facts verify.
  record IsChained (s : InteroperabilityLedger) : Type 0 where
    verified : (operation_id : String) → verify u rt s operation_id ≡ ok true

  store_fact-IsChained :
      (s : InteroperabilityLedger) (r : Recording) (payload_digest : String)
      (projection : Option InvocationProjection) (fact : InteroperabilityFact)
      → IsChained s
      → IsNext (facts_of s r.operation_id) fact
      → IsChained (store_fact u rt r payload_digest projection s fact)
  unfolding store_fact verify
  store_fact-IsChained s r payload_digest projection fact chained fits = record {
    verified = λ j. elim (Bool-cases (string_eq.beq r.operation_id j)) [
      | inl same ↦
          rw (get-put, same)
            (verify_facts-append (facts_of s r.operation_id) fact 1 genesis_digest
              (chained.verified r.operation_id) (omega (arith, fits.counted))
              (fits.linked ∙ newest_digest-eq (facts_of s r.operation_id)) fits.digested)
      | inr other ↦ rw (get-put, other) (chained.verified j)
    ];
  }

  stored-IsChained :
      (s : InteroperabilityLedger) (r : Recording) (payload_digest : String)
      (projection : Option InvocationProjection) (result : Result InteroperabilityFact)
      → IsChained s
      → ((fact : InteroperabilityFact) → result ≡ ok fact → IsNext (facts_of s r.operation_id) fact)
      → IsChained (stored u rt r payload_digest projection result s).1
  unfolding stored
  stored-IsChained s r payload_digest projection (err e) chained fits = chained
  stored-IsChained s r payload_digest projection (ok fact) chained fits =
      store_fact-IsChained s r payload_digest projection fact chained (fits fact refl)

  append_known-IsChained :
      (s : InteroperabilityLedger) (r : Recording) (payload_digest : String)
      (projection : Option InvocationProjection) (known : Option (String × String))
      → IsChained s
      → IsChained (append_known u rt r payload_digest projection known s).1
  unfolding append_known
  append_known-IsChained s r payload_digest projection (some existing) chained = chained
  append_known-IsChained s r payload_digest projection none chained =
      stored-IsChained s r payload_digest projection _ chained (λ fact done.
        let (built, is, checked) =
          >>=-eq-ok (build_fact u rt r (facts_of s r.operation_id)) _ done in
        let (_, _, same) =
          >>=-eq-ok (check_new projection (get r.operation_id s.projections)) _ checked in
        subst (IsNext (facts_of s r.operation_id)) (ok-injective same)
          (build_fact-IsNext r (facts_of s r.operation_id) built is))

  append_digested-IsChained :
      (s : InteroperabilityLedger) (r : Recording) (projection : Option InvocationProjection)
      (digest : Result String)
      → IsChained s
      → IsChained (append_digested u rt r projection digest s).1
  unfolding append_digested
  append_digested-IsChained s r projection (err e) chained = chained
  append_digested-IsChained s r projection (ok payload_digest) chained =
      append_known-IsChained s r payload_digest projection (get r.command_ref s.commands) chained

  append-IsChained :
      (s : InteroperabilityLedger) (r : Recording) (projection : Option InvocationProjection)
      → IsChained s
      → IsChained (append u rt r projection s).1
  unfolding append
  append-IsChained s r projection chained = append_digested-IsChained s r projection _ chained

  -- The ledgers that appends lead to.
  pub data LedgerReach : InteroperabilityLedger → Type 0 where
    start : LedgerReach no_facts
    after :
        {s : InteroperabilityLedger} (r : Recording) (projection : Option InvocationProjection)
        → LedgerReach s
        → LedgerReach (append u rt r projection s).1

  LedgerReach-IsChained : {s : InteroperabilityLedger} → LedgerReach s → IsChained s
  unfolding get verify verify_facts
  LedgerReach-IsChained start = record { verified = λ j. refl }
  LedgerReach-IsChained (after r projection reached) =
      append-IsChained _ r projection (LedgerReach-IsChained reached)

  -- In a ledger that appends have led to, whatever was appended and refused, the facts of every
  -- operation verify: verify raises nothing and returns true.
  pub appended_verifies :
      (s : InteroperabilityLedger) (operation_id : String)
      → LedgerReach s
      → verify u rt s operation_id ≡ ok true
  appended_verifies s operation_id reached = (LedgerReach-IsChained reached).verified operation_id
