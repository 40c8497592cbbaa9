-- ===== src/Production/Restore.antt =====
-- What `verify_restored_ledger` accepts, told of the events themselves.
use aegis_framework_platform.Base.{
  ℕ, suc, ◌+◌, String, ◌≡◌, refl, sym, ap, ◌∙◌, true, List, [], ◌∷◌, arith, string_eq, nat_beq,
  ◌==◌, length, last_of, Result, ok, if◌then◌else◌, ◌>>=◌, >>=-eq-ok,
}
use aegis_framework_platform.Base.Dict.{get, get-put}
use aegis_framework_platform.Runtime.{Runtime}
use aegis_framework_platform.Production.{
  RestoreLedgerEvent, RestoreVerification, zero_hash, RestoreState, restore_start, sequence_of,
  hash_of, restore_step, calculated_hash, restore_event, restore_events, verify_restored_ledger,
}

-- The number of the aggregate's events, of events that are listed newest first.
unfoldable pub count_of : String → List RestoreLedgerEvent → ℕ
count_of id [] = 0
count_of id (event ∷ before) =
    if event.aggregate_id == id then count_of id before + 1 else count_of id before

-- The hash of the aggregate's newest event.
unfoldable pub newest_of : String → List RestoreLedgerEvent → String
newest_of id [] = zero_hash
newest_of id (event ∷ before) =
    if event.aggregate_id == id then event.record_hash else newest_of id before

unfoldable pub newest_hash : List RestoreLedgerEvent → String
newest_hash [] = zero_hash
newest_hash (event ∷ before) = event.record_hash

-- The event comes next behind the others: its numbers count them, and it names the hashes of the
-- newest events of the tenant and of its aggregate.
pub record IsNextEvent (rt : Runtime) (before : List RestoreLedgerEvent)
    (event : RestoreLedgerEvent) : Type 0 where
  pub numbered : event.cursor ≡ length before + 1
  pub counted : event.aggregate_sequence ≡ count_of event.aggregate_id before + 1
  pub chained : event.aggregate_previous_hash ≡ newest_of event.aggregate_id before
  pub linked : event.tenant_previous_hash ≡ newest_hash before
  pub hashed : event.record_hash ≡ calculated_hash rt event

abbrev pub IsRestored : Runtime → List RestoreLedgerEvent → List RestoreLedgerEvent → Type 0
IsRestored rt before [] = Unit
IsRestored rt before (event ∷ rest) =
    IsNextEvent rt before event × IsRestored rt (event ∷ before) rest

-- The variables of the loop behind the events.
record Describes (s : RestoreState) (before : List RestoreLedgerEvent) : Type 0 where
  sequences : (id : String) → sequence_of s id ≡ count_of id before
  hashes : (id : String) → hash_of s id ≡ newest_of id before
  tenant : s.tenant_hash ≡ newest_hash before

module _ (rt : Runtime) (s : RestoreState) (before : List RestoreLedgerEvent)
    (event : RestoreLedgerEvent) (d : Describes s before) where
  sound :
      (next : RestoreState)
      → restore_event rt (length before + 1) s event ≡ ok next
      → IsNextEvent rt before event × (next ≡ restore_step s event)
  unfolding restore_event
  sound next h = (
    record {
      numbered = ground arith;
      counted = ground (arith, d.sequences event.aggregate_id);
      chained = ground (
        arith,
        d.hashes event.aggregate_id,
        string_eq.beq_iff event.aggregate_previous_hash (hash_of s event.aggregate_id),
      );
      linked = ground (arith, d.tenant, string_eq.beq_iff event.tenant_previous_hash s.tenant_hash);
      hashed = ground (arith, string_eq.beq_iff event.record_hash (calculated_hash rt event));
    },
    ground arith,
  )

  complete :
      IsNextEvent rt before event
      → restore_event rt (length before + 1) s event ≡ ok (restore_step s event)
  unfolding restore_event
  complete n =
      let a : nat_beq event.cursor (length before + 1) ≡ true = ground (arith, n.numbered) in
      let b : nat_beq event.aggregate_sequence (sequence_of s event.aggregate_id + 1) ≡ true =
        ground (arith, n.counted, d.sequences event.aggregate_id) in
      let c : (event.aggregate_previous_hash == hash_of s event.aggregate_id) ≡ true =
        (string_eq.beq_iff event.aggregate_previous_hash (hash_of s event.aggregate_id)).1
          (n.chained ∙ sym (d.hashes event.aggregate_id)) in
      let e : (event.tenant_previous_hash == s.tenant_hash) ≡ true =
        (string_eq.beq_iff event.tenant_previous_hash s.tenant_hash).1 (n.linked ∙ sym d.tenant) in
      let f : (event.record_hash == calculated_hash rt event) ≡ true =
        (string_eq.beq_iff event.record_hash (calculated_hash rt event)).1 n.hashed in
      rw (a, b, c, e, f) refl

  step-Describes : IsNextEvent rt before event → Describes (restore_step s event) (event ∷ before)
  unfolding count_of newest_of newest_hash
  step-Describes n = record {
    sequences = λ id. ground (
      arith,
      get-put event.aggregate_id id event.aggregate_sequence s.aggregate_sequences,
      d.sequences id,
      n.counted,
      string_eq.beq_iff event.aggregate_id id,
    );
    hashes = λ id.
        ground
          (arith, get-put event.aggregate_id id event.record_hash s.aggregate_hashes, d.hashes id);
    tenant = refl;
  }

module _ (rt : Runtime) where
  count_on : (n : ℕ) → suc n + 1 ≡ n + 1 + 1
  count_on n = omega arith

  same_call :
      (s : RestoreState) (before : List RestoreLedgerEvent) (event : RestoreLedgerEvent)
      (rest : List RestoreLedgerEvent) (next last : RestoreState)
      → next ≡ restore_step s event
      → restore_events rt (length before + 1 + 1) next rest ≡ ok last
      → restore_events rt (length (event ∷ before) + 1) (restore_step s event) rest ≡ ok last
  same_call s before event rest next last e q =
      ap (λ k. restore_events rt k (restore_step s event) rest) (count_on (length before))
      ∙ ap (λ x. restore_events rt (length before + 1 + 1) x rest) (sym e)
      ∙ q

  loop_sound :
      (s : RestoreState) (before events : List RestoreLedgerEvent) (last : RestoreState)
      → Describes s before
      → restore_events rt (length before + 1) s events ≡ ok last
      → IsRestored rt before events
  unfolding restore_events
  loop_sound s before [] last d h = tt
  loop_sound s before (event ∷ rest) last d h =
      let (next, p, q) = >>=-eq-ok (restore_event rt (length before + 1) s event) _ h in
      let (n, e) = sound rt s before event d next p in
      (
        n,
        loop_sound (restore_step s event) (event ∷ before) rest last
            (step-Describes rt s before event d n) (same_call s before event rest next last e q),
      )

  loop_complete :
      (s : RestoreState) (before events : List RestoreLedgerEvent)
      → Describes s before
      → IsRestored rt before events
      → (last : RestoreState) × (restore_events rt (length before + 1) s events ≡ ok last)
  unfolding restore_events
  loop_complete s before [] d h = (s, refl)
  loop_complete s before (event ∷ rest) d h =
      let (last, q) =
        loop_complete (restore_step s event) (event ∷ before) rest
          (step-Describes rt s before event d h.0) h.1 in
      (
        last,
        rw (complete rt s before event d h.0) (
            ap (λ k. restore_events rt k (restore_step s event) rest)
              (sym (count_on (length before)))
            ∙ q),
      )

  start-Describes : Describes restore_start []
  unfolding count_of newest_of newest_hash get
  start-Describes = record { sequences = λ id. refl; hashes = λ id. refl; tenant = refl }

  last_numbered :
      (before : List RestoreLedgerEvent) (event : RestoreLedgerEvent)
      (rest : List RestoreLedgerEvent)
      → IsRestored rt before (event ∷ rest)
      → (last_of event rest).cursor ≡ length before + length (event ∷ rest)
  last_numbered before event [] h = omega (arith, h.0.numbered)
  last_numbered before event (next ∷ rest) h =
      omega (arith, last_numbered (event ∷ before) next rest h.1)

  -- Where verify_restored_ledger returns, every event comes next behind those in front of it: its
  -- cursor and its aggregate sequence count them, it names the hashes of the newest of them, of the
  -- tenant and of its aggregate, and its hash is its own; and the event count and the last cursor
  -- that are returned are the number of events.
  pub IsRestored-sound :
      (events : List RestoreLedgerEvent) (v : RestoreVerification)
      → verify_restored_ledger rt events ≡ ok v
      → IsRestored rt [] events × (v.event_count ≡ length events) × (v.last_cursor ≡ length events)
  unfolding verify_restored_ledger
  IsRestored-sound [] v h = cc
  IsRestored-sound (event ∷ rest) v h =
      let (last, p, q) = >>=-eq-ok (restore_events rt 1 restore_start (event ∷ rest)) _ h in
      let restored : IsRestored rt [] (event ∷ rest) =
        loop_sound restore_start [] (event ∷ rest) last start-Describes p in
      let numbered = last_numbered [] event rest restored in
      let counted : v.event_count ≡ length (event ∷ rest) = ground (arith, q) in
      let cursor : v.last_cursor ≡ (last_of event rest).cursor = ground (arith, q) in
      (restored, counted, omega (arith, cursor, numbered))

  -- verify_restored_ledger returns for every non-empty list of events in which each comes next
  -- behind those in front of it.
  pub IsRestored-complete :
      (event : RestoreLedgerEvent) (rest : List RestoreLedgerEvent)
      → IsRestored rt [] (event ∷ rest)
      → (v : RestoreVerification) × (verify_restored_ledger rt (event ∷ rest) ≡ ok v)
  unfolding verify_restored_ledger
  IsRestored-complete event rest h =
      let (last, q) = loop_complete restore_start [] (event ∷ rest) start-Describes h in
      (
        _,
        ap
            (λ (r : Result RestoreState). r >>= λ last. ok (record {
              event_count = length (event ∷ rest);
              aggregate_count = length last.aggregate_sequences;
              last_cursor = (last_of event rest).cursor;
              last_tenant_hash = last.tenant_hash;
            }))
            q,
      )
