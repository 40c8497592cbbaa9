-- ===== src/Interoperability/Trust/Reviewed.antt =====
-- `TrustRegistry` of interoperability.py over any sequence of registrations and transitions.
use mathlib.Core.Option.{some-injective}
use aegis_framework_platform.Base.{
  ℕ, ◌+◌, String, ◌≡◌, refl, sym, ap, ◌∙◌, subst, true, false, not, some, List, [], ◌∷◌, ◌++◌,
  arith, ◌==◌, string_eq, last_of, length, policy_denied, Result, ok, err, ◌>>◌, or_raise,
  >>=-eq-ok, raise_if-eq-ok, or_raise-eq-ok,
}
use aegis_framework_platform.Base.Dict.{get}
use aegis_framework_platform.Runtime.{Runtime}
use aegis_framework_platform.Interoperability.Trust.History.{
  HistoryStep, registered, moved, Steps, IsHistory, IsValid, IsSound, newest-IsValid,
  transition-IsSound, register-IsSound,
}
use aegis_framework_platform.Interoperability.Documents.{Unicode}
use aegis_framework_platform.Interoperability.Kinds.{
  ProtocolKind, TrustStatus, pending_review, active, quarantined, revoked, expired,
  emergency_disabled, DataClassification, RiskLevel, protocol_eq, status_eq,
}
use aegis_framework_platform.Interoperability.Trust.{
  TrustEntry, TrustRegistry, no_peers, history, newest, current, check_reviewers, validate_entry,
  store_entry, register, is_terminal, check_transition, transitioned, transition, review,
  quarantine, revoke, emergency_disable, check_active, require_active,
}

is_terminal-status :
    (t : TrustStatus)
    → is_terminal t ≡ true
    → ((t == pending_review) ≡ false) × ((t == active) ≡ false)
unfolding is_terminal
is_terminal-status pending_review h = cc
is_terminal-status active h = cc
is_terminal-status quarantined h = cc
is_terminal-status revoked h = (refl, refl)
is_terminal-status expired h = cc
is_terminal-status emergency_disabled h = (refl, refl)

>>-ok_right : (r : Result (Unit {0})) → (r >> ok tt) ≡ r
>>-ok_right (ok tt) = refl
>>-ok_right (err e) = refl

module _ (rt : Runtime) (u : Unicode) where
  -- The calls of a registry; the validator has accepted whatever entry there is to register.
  pub data TrustStep (s : TrustRegistry) : TrustRegistry → Type 0 where
    registers : (e : TrustEntry) → IsValid rt e → TrustStep s (register e s).1
    reviews :
        (peer_id : String) (revision : ℕ) (reviewer_ref : String) (now : ℕ) (typed : String)
        → TrustStep s (review rt u peer_id revision reviewer_ref now typed s).1
    quarantines :
        (peer_id : String) (revision : ℕ) (reviewer_ref : String) (now : ℕ) (typed : String)
        → TrustStep s (quarantine rt u peer_id revision reviewer_ref now typed s).1
    revokes :
        (peer_id : String) (revision : ℕ) (reviewer_ref : String) (now : ℕ) (typed : String)
        → TrustStep s (revoke rt u peer_id revision reviewer_ref now typed s).1
    disables :
        (peer_id : String) (revision : ℕ) (reviewer_ref : String) (now : ℕ) (typed : String)
        → TrustStep s (emergency_disable rt u peer_id revision reviewer_ref now typed s).1

  -- The registries that calls lead to.
  pub data TrustReach : TrustRegistry → Type 0 where
    start : TrustReach no_peers
    after : {s t : TrustRegistry} → TrustReach s → TrustStep s t → TrustReach t

  TrustStep-IsSound : {s t : TrustRegistry} → TrustStep s t → IsSound rt s → IsSound rt t
  unfolding review quarantine revoke emergency_disable
  TrustStep-IsSound (registers e valid) h = register-IsSound rt _ e h valid
  TrustStep-IsSound (reviews peer_id revision reviewer_ref now typed) h =
      transition-IsSound rt u _ _ _ peer_id revision reviewer_ref now typed h
  TrustStep-IsSound (quarantines peer_id revision reviewer_ref now typed) h =
      transition-IsSound rt u _ _ _ peer_id revision reviewer_ref now typed h
  TrustStep-IsSound (revokes peer_id revision reviewer_ref now typed) h =
      transition-IsSound rt u _ _ _ peer_id revision reviewer_ref now typed h
  TrustStep-IsSound (disables peer_id revision reviewer_ref now typed) h =
      transition-IsSound rt u _ _ _ peer_id revision reviewer_ref now typed h

  TrustReach-IsSound : {s : TrustRegistry} → TrustReach s → IsSound rt s
  unfolding get
  TrustReach-IsSound start = record { listed = λ j. tt; valid = λ j. tt }
  TrustReach-IsSound (after r step) = TrustStep-IsSound step (TrustReach-IsSound r)

  -- The last step of a history with more than one entry.
  record LastStep (entries : List TrustEntry) (e : TrustEntry) : Type 0 where
    front : List TrustEntry
    before : TrustEntry
    ends : entries ≡ front ++ before ∷ e ∷ []
    step : HistoryStep rt before e

  Steps-LastStep :
      (p e : TrustEntry) (rest : List TrustEntry)
      → Steps rt p (e ∷ rest)
      → LastStep (p ∷ e ∷ rest) (last_of e rest)
  Steps-LastStep p e [] h = record { front = []; before = p; ends = refl; step = h.0 }
  Steps-LastStep p e (x ∷ rest) h =
      let tail = Steps-LastStep e x rest h.1 in
      record {
        front = p ∷ tail.front;
        before = tail.before;
        ends = ap (◌∷◌ p) tail.ends;
        step = tail.step;
      }

  -- An entry that a review has put behind an entry that awaited it, and that is its copy but for the review.
  pub record IsReviewed (s : TrustRegistry) (peer_id : String) (e : TrustEntry) : Type 0 where
    pub front : List TrustEntry
    pub awaiting : TrustEntry
    pub listed : history s peer_id ≡ front ++ awaiting ∷ e ∷ []
    pub awaits : awaiting.status ≡ pending_review
    pub reviewer_ref : String
    pub at : ℕ
    pub copied : e ≡ transitioned rt active reviewer_ref at awaiting

  HistoryStep-IsReviewed :
      (s : TrustRegistry) (peer_id : String) (p e : TrustEntry) (front : List TrustEntry)
      → history s peer_id ≡ front ++ p ∷ e ∷ []
      → e.status ≡ active
      → HistoryStep rt p e
      → IsReviewed s peer_id e
  unfolding transitioned
  HistoryStep-IsReviewed s peer_id p e front listed trusted (registered waits _) = cc
  HistoryStep-IsReviewed s peer_id p e front listed trusted
        (moved target reviewer_ref now awaited copied) =
      let is_active : target ≡ active = sym (ap (λ (x : TrustEntry). x.status) copied) ∙ trusted in
      record {
        front = front;
        awaiting = p;
        listed = listed;
        awaits = awaited is_active;
        reviewer_ref = reviewer_ref;
        at = now;
        copied = rw (← is_active) copied;
      }

  active-IsReviewed :
      (s : TrustRegistry) (peer_id : String) (e : TrustEntry) (xs : List TrustEntry)
      → history s peer_id ≡ xs
      → IsHistory rt xs
      → newest xs ≡ some e
      → e.status ≡ active
      → IsReviewed s peer_id e
  unfolding newest
  active-IsReviewed s peer_id e [] is h last trusted = cc
  active-IsReviewed s peer_id e (x ∷ []) is h last trusted =
      let same = some-injective x e last in cc (h.0.0, ap (λ (y : TrustEntry). y.status) same)
  active-IsReviewed s peer_id e (x ∷ y ∷ rest) is h last trusted =
      let end =
        subst (LastStep (x ∷ y ∷ rest)) (some-injective _ e last) (Steps-LastStep x y rest h.1) in
      HistoryStep-IsReviewed s peer_id end.before e end.front (is ∙ end.ends) trusted end.step

  check_active-status :
      (capability_id : String) (risk : RiskLevel) (classification : DataClassification) (now : ℕ)
      (e : TrustEntry) {r : TrustEntry}
      → check_active capability_id risk classification now e ≡ ok r
      → (e ≡ r) × (e.status ≡ active)
  unfolding check_active
  check_active-status capability_id risk classification now e h =
      ground (arith, status_eq.beq_iff e.status active)

  -- In a registry that registrations of valid entries, reviews, quarantines, revocations and
  -- emergency disabling have led to, an entry that require_active returns is the last of its peer,
  -- and a review has put it behind an entry of that peer that awaited review, of which it is the
  -- copy but for its revision, status, reviewers, review time and change digest.
  pub require_active-IsReviewed :
      (s : TrustRegistry) (peer_id : String) (protocol : ProtocolKind) (capability_id : String)
      (risk : RiskLevel) (classification : DataClassification) (now : ℕ) {e : TrustEntry}
      → TrustReach s
      → require_active s peer_id protocol capability_id risk classification now ≡ ok e
      → IsReviewed s peer_id e
  unfolding require_active
  require_active-IsReviewed s peer_id protocol capability_id risk classification now {e} r h =
      let (q, known, found) = >>=-eq-ok (or_raise (current s peer_id) policy_denied) _ h in
      let (_, checked) = raise_if-eq-ok (not (q.protocol == protocol)) policy_denied _ found in
      let (same, trusted) = check_active-status capability_id risk classification now q checked in
      active-IsReviewed s peer_id e (history s peer_id) refl ((TrustReach-IsSound r).listed peer_id)
        (or_raise-eq-ok (current s peer_id) policy_denied known ∙ ap some same)
        (rw (← same) trusted)

  -- The validation of an entry that has the shape of one raises for its reviewers alone.
  validate_entry-IsValid :
      (e : TrustEntry) → IsValid rt e → validate_entry e ≡ check_reviewers e.reviewed_by
  unfolding validate_entry
  validate_entry-IsValid e valid = rw valid (>>-ok_right (check_reviewers e.reviewed_by))

  step_revision : (p e : TrustEntry) → HistoryStep rt p e → e.revision ≡ p.revision + 1
  unfolding transitioned
  step_revision p e (registered waits next) = next
  step_revision p e (moved target reviewer_ref now awaited copied) =
      ap (λ (x : TrustEntry). x.revision) copied

  Steps-revision :
      (p : TrustEntry) (rest : List TrustEntry)
      → Steps rt p rest
      → (last_of p rest).revision ≡ p.revision + length rest
  Steps-revision p [] h = omega arith
  Steps-revision p (e ∷ rest) h = omega (arith, Steps-revision e rest h.1, step_revision p e h.0)

  newest-revision :
      (xs : List TrustEntry) (e : TrustEntry)
      → IsHistory rt xs
      → newest xs ≡ some e
      → e.revision ≡ length xs
  unfolding newest
  newest-revision [] e h is = cc
  newest-revision (x ∷ xs) e h is =
      let same = some-injective _ e is in
      rw (← same) (omega (arith, Steps-revision x xs h.1, h.0.1))

  -- In a registry that registrations of entries with a valid shape, reviews, quarantines,
  -- revocations and emergency disabling have led to, the revision of the last entry of a peer is
  -- the number of its entries, and validating that entry anew raises only what the bounds of its
  -- reviewers raise, since its shape is valid although the copies of transitions are not validated
  -- (the bounds of the fields that a transition leaves alone apart).
  pub revision-eq-length :
      (s : TrustRegistry) (peer_id : String) (e : TrustEntry)
      → TrustReach s
      → current s peer_id ≡ some e
      → (e.revision ≡ length (history s peer_id))
        × (validate_entry e ≡ check_reviewers e.reviewed_by)
  revision-eq-length s peer_id e r known =
      let sound = TrustReach-IsSound r in
      (
        newest-revision (history s peer_id) e (sound.listed peer_id) known,
        validate_entry-IsValid e
            (newest-IsValid rt (history s peer_id) (sound.valid peer_id) known),
      )

  -- Where the last entry of a peer is revoked or emergency-disabled, no transition to whichever
  -- status changes the registry, and require_active denies the peer.
  pub terminal_denied :
      (s : TrustRegistry) (peer_id word : String) (target : TrustStatus) (revision now : ℕ)
      (reviewer_ref typed capability_id : String) (protocol : ProtocolKind) (risk : RiskLevel)
      (classification : DataClassification) (p : TrustEntry)
      → current s peer_id ≡ some p
      → is_terminal p.status ≡ true
      → ((transition rt u target word peer_id revision reviewer_ref now typed s).1 ≡ s)
        × (require_active s peer_id protocol capability_id risk classification now
            ≡ err policy_denied)
  unfolding transition store_entry check_transition require_active check_active or_raise
  terminal_denied s peer_id word target revision now reviewer_ref typed capability_id protocol risk
        classification p known over =
      (
        rw known (ground (arith, is_terminal-status p.status over)),
        rw known (ground (arith, is_terminal-status p.status over)),
      )
