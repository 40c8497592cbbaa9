-- ===== src/Interoperability/Circuit/Refines.antt =====
-- `CircuitBreaker` of interoperability.py against its specification.
use mathlib.Core.Path.{fun_ext}
use aegis_framework_platform.Base.{
  ℕ, ◌+◌, ◌-◌, ◌*◌, ◌≤◌, ◌<◌, String, ◌≡◌, refl, ap, ◌∙◌, Bool, true, false, not, ◌&&◌, inl, inr,
  Option-cases, Option, none, some, List, [], ◌∷◌, arith, ltb, leb, nat_beq, ◌||◌, value_error,
  ◌==◌, if◌then◌else◌, string_eq, or_default, ok, raise_if-eq-ok, ok-injective,
}
use aegis_framework_platform.Base.Dict.{Dict, get, has_key, get-put, get-pop}
use aegis_framework_platform.Interoperability.Circuit.{
  CircuitBreaker, new_breaker, make_breaker, failures_of, is_cooled, allow, set_default,
  record_failure, record_success, record_outcome,
}
use aegis_framework_platform.Interoperability.Circuit.Spec.{
  Circuit, closed, open_since, Circuits, all_closed, update, Call, asks, reports, try, settle,
  answers,
}

-- The answers of a breaker to a sequence of calls.
unfoldable pub breaker_answers : CircuitBreaker → List Call → List Bool
breaker_answers b [] = []
breaker_answers b (asks peer_id now ∷ rest) =
    (allow peer_id now b).0 ∷ breaker_answers (allow peer_id now b).1 rest
breaker_answers b (reports peer_id success now ∷ rest) =
    breaker_answers (record_outcome peer_id success now b) rest

-- The circuit of a peer that has so many failures and was opened then.
abbrev circuit_of : ℕ → ℕ → Option ℕ → Circuit
circuit_of failure_threshold n opened =
    if ltb n failure_threshold then closed n else open_since (or_default opened 0)

abbrev view : CircuitBreaker → Circuits
view b peer_id = circuit_of b.failure_threshold (failures_of b peer_id) (get peer_id b.opened_at)

module _ (failure_threshold cooldown : ℕ) (positive : 0 < failure_threshold) where
  -- A peer's circuit has been opened exactly when its failures have reached the threshold.
  abbrev IsTripped : ℕ → Option ℕ → Type 0
  IsTripped n none = n < failure_threshold
  IsTripped n (some t) = failure_threshold ≤ n

  record IsKept (b : CircuitBreaker) : Type 0 where
    threshold : b.failure_threshold ≡ failure_threshold
    waits : b.cooldown ≡ cooldown
    tripped : (j : String) → IsTripped (failures_of b j) (get j b.opened_at)

  -- What an answer and the peer's circuit are, by its failures and its instant.
  allow-eq :
      (b : CircuitBreaker) (peer_id : String) (now : ℕ)
      → IsKept b
      → (allow peer_id now b).0 ≡ (try failure_threshold cooldown now (view b peer_id)).0
  unfolding allow try is_cooled
  allow-eq b peer_id now kept = elim (Option-cases (get peer_id b.opened_at)) [
    | inl never ↦
        rw never (ground (arith, kept.threshold, kept.waits, rw never at (kept.tripped peer_id)))
    | inr (t, opened) ↦
        rw opened (ground (arith, kept.threshold, kept.waits, rw opened at (kept.tripped peer_id)))
  ]

  -- What `allow` leaves of a peer's failures and of its instant.
  allow-failures :
      (b : CircuitBreaker) (peer_id j : String) (now : ℕ)
      → failures_of (allow peer_id now b).1 j ≡ (
          if peer_id == j
            && not (ltb (failures_of b peer_id) b.failure_threshold)
            && is_cooled b.cooldown now (get peer_id b.opened_at)
          then b.failure_threshold - 1
          else failures_of b j)
  unfolding allow
  allow-failures b peer_id j now =
      ground (arith, get-put peer_id j (b.failure_threshold - 1) b.failures)

  allow-opened :
      (b : CircuitBreaker) (peer_id j : String) (now : ℕ)
      → get j (allow peer_id now b).1.opened_at ≡ (
          if peer_id == j
            && not (ltb (failures_of b peer_id) b.failure_threshold)
            && is_cooled b.cooldown now (get peer_id b.opened_at)
          then none
          else get j b.opened_at)
  unfolding allow
  allow-opened b peer_id j now = ground (arith, get-pop peer_id j b.opened_at)

  -- No method changes the settings.
  allow-settings :
      (b : CircuitBreaker) (peer_id : String) (now : ℕ)
      → ((allow peer_id now b).1.failure_threshold ≡ b.failure_threshold)
        × ((allow peer_id now b).1.cooldown ≡ b.cooldown)
  unfolding allow
  allow-settings b peer_id now = ground arith

  allow-view :
      (b : CircuitBreaker) (peer_id j : String) (now : ℕ)
      → IsKept b
      → view (allow peer_id now b).1 j
        ≡ update peer_id (try failure_threshold cooldown now (view b peer_id)).1 (view b) j
  unfolding try is_cooled
  allow-view b peer_id j now kept = elim (Option-cases (get peer_id b.opened_at)) [
    | inl never ↦
        rw (allow-failures, allow-opened, (allow-settings b peer_id now).0, never)
          (ground (
            arith,
            string_eq.beq_iff peer_id j,
            kept.threshold,
            rw never at (kept.tripped peer_id),
          ))
    | inr (t, opened) ↦
        rw (allow-failures, allow-opened, (allow-settings b peer_id now).0, opened)
          (ground (
            arith,
            string_eq.beq_iff peer_id j,
            kept.threshold,
            kept.waits,
            rw opened at (kept.tripped peer_id),
            positive,
          ))
  ]

  allow-IsKept :
      (b : CircuitBreaker) (peer_id : String) (now : ℕ) → IsKept b → IsKept (allow peer_id now b).1
  unfolding is_cooled
  allow-IsKept b peer_id now kept = record {
    threshold = (allow-settings b peer_id now).0 ∙ kept.threshold;
    waits = (allow-settings b peer_id now).1 ∙ kept.waits;
    tripped = λ j.
        rw (allow-failures, allow-opened)
          (ground (arith, kept.tripped j, kept.threshold, positive));
  }

  set_default-eq :
      (key j : String) (value : ℕ) (d : Dict String ℕ)
      → get j (set_default key value d)
        ≡ (if key == j && not (has_key key d) then some value else get j d)
  unfolding set_default
  set_default-eq key j value d = ground (arith, get-put key j value d)

  outcome-failures :
      (b : CircuitBreaker) (peer_id j : String) (success : Bool) (now : ℕ)
      → failures_of (record_outcome peer_id success now b) j ≡ (
          if peer_id == j
          then (if success then 0 else failures_of b peer_id + 1)
          else failures_of b j)
  unfolding record_outcome record_failure record_success
  outcome-failures b peer_id j true now = ground (arith, get-put peer_id j 0 b.failures)
  outcome-failures b peer_id j false now =
      ground (arith, get-put peer_id j (failures_of b peer_id + 1) b.failures)

  outcome-opened :
      (b : CircuitBreaker) (peer_id j : String) (success : Bool) (now : ℕ)
      → get j (record_outcome peer_id success now b).opened_at ≡ (
          if peer_id == j && success
          then none
          else if peer_id == j
              && leb b.failure_threshold (failures_of b peer_id + 1)
              && not (has_key peer_id b.opened_at)
          then some now
          else get j b.opened_at)
  unfolding record_outcome record_failure record_success
  outcome-opened b peer_id j true now = ground (arith, get-pop peer_id j b.opened_at)
  outcome-opened b peer_id j false now = ground (arith, set_default-eq peer_id j now b.opened_at)

  outcome-settings :
      (b : CircuitBreaker) (peer_id : String) (success : Bool) (now : ℕ)
      → ((record_outcome peer_id success now b).failure_threshold ≡ b.failure_threshold)
        × ((record_outcome peer_id success now b).cooldown ≡ b.cooldown)
  unfolding record_outcome record_failure record_success
  outcome-settings b peer_id true now = ground arith
  outcome-settings b peer_id false now = ground arith

  outcome-view :
      (b : CircuitBreaker) (peer_id j : String) (success : Bool) (now : ℕ)
      → IsKept b
      → view (record_outcome peer_id success now b) j
        ≡ update peer_id (settle failure_threshold cooldown success now (view b peer_id)) (view b) j
  unfolding settle has_key
  outcome-view b peer_id j true now kept =
      rw (outcome-failures, outcome-opened, (outcome-settings b peer_id true now).0)
        (ground (arith, kept.threshold, positive))
  outcome-view b peer_id j false now kept = elim (Option-cases (get peer_id b.opened_at)) [
    | inl never ↦
        rw (outcome-failures, outcome-opened, (outcome-settings b peer_id false now).0, never)
          (ground (
            arith,
            string_eq.beq_iff peer_id j,
            kept.threshold,
            rw never at (kept.tripped peer_id),
          ))
    | inr (t, opened) ↦
        rw (outcome-failures, outcome-opened, (outcome-settings b peer_id false now).0, opened)
          (ground (
            arith,
            string_eq.beq_iff peer_id j,
            kept.threshold,
            rw opened at (kept.tripped peer_id),
          ))
  ]

  outcome-IsKept :
      (b : CircuitBreaker) (peer_id : String) (success : Bool) (now : ℕ)
      → IsKept b
      → IsKept (record_outcome peer_id success now b)
  unfolding has_key
  outcome-IsKept b peer_id success now kept = record {
    threshold = (outcome-settings b peer_id success now).0 ∙ kept.threshold;
    waits = (outcome-settings b peer_id success now).1 ∙ kept.waits;
    tripped = λ j.
        rw (outcome-failures, outcome-opened)
          (ground (arith, string_eq.beq_iff peer_id j, kept.tripped j, kept.threshold, positive));
  }

  new-IsKept : IsKept (new_breaker failure_threshold cooldown)
  unfolding get
  new-IsKept = record { threshold = refl; waits = refl; tripped = λ j. positive }

  new-view : (j : String) → view (new_breaker failure_threshold cooldown) j ≡ all_closed j
  unfolding get
  new-view j = ground (arith, positive)

  breaker_answers-eq :
      (b : CircuitBreaker) (calls : List Call)
      → IsKept b
      → breaker_answers b calls ≡ answers failure_threshold cooldown (view b) calls
  unfolding breaker_answers answers
  breaker_answers-eq b [] kept = refl
  breaker_answers-eq b (asks peer_id now ∷ rest) kept = rw (
    allow-eq b peer_id now kept,
    breaker_answers-eq (allow peer_id now b).1 rest (allow-IsKept b peer_id now kept),
    fun_ext (λ j. allow-view b peer_id j now kept),
  )
  breaker_answers-eq b (reports peer_id success now ∷ rest) kept = rw (
    breaker_answers-eq (record_outcome peer_id success now b) rest
        (outcome-IsKept b peer_id success now kept),
    fun_ext (λ j. outcome-view b peer_id j success now kept),
  )

-- Whatever sequence of calls a new breaker gets, asking for permission or reporting outcomes, of
-- any peers and with any readings of the clock, it answers as the specification: a circuit for each
-- peer that is closed and counts failures, or open since an instant.
pub breaker_answers-answers :
    (second failure_threshold cooldown : ℕ) (b : CircuitBreaker) (calls : List Call)
    → make_breaker second failure_threshold cooldown ≡ ok b
    → breaker_answers b calls ≡ answers failure_threshold cooldown all_closed calls
unfolding make_breaker
breaker_answers-answers second failure_threshold cooldown b calls made =
    let (bounded, rest) =
      raise_if-eq-ok (ltb failure_threshold 1 || ltb 20 failure_threshold) value_error _ made in
    let (_, built) =
      raise_if-eq-ok (nat_beq cooldown 0 || ltb (3600 * second) cooldown) value_error _ rest in
    let positive : 0 < failure_threshold = ground (arith, bounded) in
    rw (← ok-injective built) (
      breaker_answers-eq failure_threshold cooldown positive
        (new_breaker failure_threshold cooldown) calls
        (new-IsKept failure_threshold cooldown positive)
      ∙ ap (λ (circuits : Circuits). answers failure_threshold cooldown circuits calls)
          (fun_ext (λ j. new-view failure_threshold cooldown positive j)))
