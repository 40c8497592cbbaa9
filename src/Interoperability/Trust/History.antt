-- ===== src/Interoperability/Trust/History.antt =====
-- The histories that `TrustRegistry` of interoperability.py keeps, and what each method does to them.
use Prim.Native.Nat.{Ordering}
use Prim.Native.String.{compare, ◌++◌ as ◌+str+◌}
use mathlib.Core.Option.{some-injective}
use aegis_framework_platform.Base.{
  ℕ, ◌+◌, String, ◌≡◌, refl, sym, ap, ◌∙◌, subst, false, not, ◌&&◌, inl, inr, Bool-cases, Option,
  none, some, List, [], ◌∷◌, ◌++◌, arith, nat_beq, ◌==◌, if◌then◌else◌, string_eq, last_of, All,
  All-append, policy_denied, payload_rejected, concurrency_conflict, Result, ok, err, or_raise,
  >>=-eq-ok, raise_if-eq-ok, ok-injective, All-last,
}
use aegis_framework_platform.Base.Dict.{get-put}
use aegis_framework_platform.Runtime.{Runtime}
use aegis_framework_platform.Interoperability.Documents.{Unicode, digest_value}
use aegis_framework_platform.Interoperability.Kinds.{
  TrustStatus, pending_review, active, protocol_eq, status_eq,
}
use aegis_framework_platform.Interoperability.Trust.{
  TrustEntry, TrustRegistry, history, newest, current, add_entry, validate_trust_shape, is_empty,
  is_none, expected_revision, other_protocol, check_register, store_entry, register, sorted_set,
  insert_text, text_insert, is_terminal, check_transition, change_document, transitioned, copied,
  transition,
}

text_insert-cons :
    (o : Ordering) (x y : String) (ys more : List String)
    → is_empty (text_insert o x y ys more) ≡ false
unfolding is_empty text_insert
text_insert-cons Ordering.lt x y ys more = refl
text_insert-cons Ordering.eq x y ys more = refl
text_insert-cons Ordering.gt x y ys more = refl

insert_text-cons : (x : String) (xs : List String) → is_empty (insert_text x xs) ≡ false
unfolding is_empty insert_text
insert_text-cons x [] = refl
insert_text-cons x (y ∷ ys) = text_insert-cons (compare x y) x y ys (insert_text x ys)

-- A set of reviewers with a reviewer in it is not empty.
sorted_set-cons : (x : String) (xs : List String) → is_empty (sorted_set (x ∷ xs)) ≡ false
unfolding sorted_set
sorted_set-cons x xs = insert_text-cons x (sorted_set xs)

module _ (rt : Runtime) where
  -- How an entry follows another one of its peer.
  pub data HistoryStep (p e : TrustEntry) : Type 0 where
    registered : e.status ≡ pending_review → e.revision ≡ p.revision + 1 → HistoryStep p e
    moved :
        (target : TrustStatus) (reviewer_ref : String) (now : ℕ)
        → (target ≡ active → p.status ≡ pending_review)
        → e ≡ transitioned rt target reviewer_ref now p
        → HistoryStep p e

  abbrev pub Follows : Option TrustEntry → TrustEntry → Type 0
  Follows none e = (e.status ≡ pending_review) × (e.revision ≡ 1)
  Follows (some p) e = HistoryStep p e

  abbrev pub Steps : TrustEntry → List TrustEntry → Type 0
  Steps p [] = Unit
  Steps p (e ∷ rest) = HistoryStep p e × Steps e rest

  abbrev pub IsHistory : List TrustEntry → Type 0
  IsHistory [] = Unit
  IsHistory (e ∷ rest) = Follows none e × Steps e rest

  Steps-append :
      (p e : TrustEntry) (rest : List TrustEntry)
      → Steps p rest
      → HistoryStep (last_of p rest) e
      → Steps p (rest ++ e ∷ [])
  Steps-append p e [] h step = (step, tt)
  Steps-append p e (x ∷ rest) h step = (h.0, Steps-append x e rest h.1 step)

  IsHistory-append :
      (e : TrustEntry) (xs : List TrustEntry)
      → IsHistory xs
      → Follows (newest xs) e
      → IsHistory (xs ++ e ∷ [])
  unfolding newest
  IsHistory-append e [] h follows = (follows, tt)
  IsHistory-append e (x ∷ rest) h follows = (h.0, Steps-append x e rest h.1 follows)

  -- What holds of a registry between two calls: the entries of each peer follow one another, and the validator accepts them all.
  abbrev pub IsValid : TrustEntry → Type 0
  IsValid e = validate_trust_shape e ≡ ok tt

  pub record IsSound (s : TrustRegistry) : Type 0 where
    pub listed : (peer_id : String) → IsHistory (history s peer_id)
    pub valid : (peer_id : String) → All IsValid (history s peer_id)

  add_entry-history :
      (s : TrustRegistry) (peer_id j : String) (e : TrustEntry)
      → history (add_entry s peer_id e) j
        ≡ (if peer_id == j then history s peer_id ++ e ∷ [] else history s j)
  unfolding add_entry
  add_entry-history s peer_id j e = rw get-put (ground arith)

  add_entry-IsSound :
      (s : TrustRegistry) (peer_id : String) (e : TrustEntry)
      → IsSound s
      → Follows (current s peer_id) e
      → IsValid e
      → IsSound (add_entry s peer_id e)
  add_entry-IsSound s peer_id e sound follows valid = record {
    listed = λ j. elim (Bool-cases (string_eq.beq peer_id j)) [
      | inl same ↦
          rw (add_entry-history, same)
            (IsHistory-append e (history s peer_id) (sound.listed peer_id) follows)
      | inr other ↦ rw (add_entry-history, other) (sound.listed j)
    ];
    valid = λ j. elim (Bool-cases (string_eq.beq peer_id j)) [
      | inl same ↦
          rw (add_entry-history, same)
            (All-append IsValid (history s peer_id) (e ∷ []) (sound.valid peer_id) (valid, tt))
      | inr other ↦ rw (add_entry-history, other) (sound.valid j)
    ];
  }

  store_entry-IsSound :
      (s : TrustRegistry) (peer_id : String) (r : Result TrustEntry)
      → IsSound s
      → ((e : TrustEntry) → r ≡ ok e → Follows (current s peer_id) e × IsValid e)
      → IsSound (store_entry peer_id r s).1
  unfolding store_entry
  store_entry-IsSound s peer_id (err x) sound kept = sound
  store_entry-IsSound s peer_id (ok e) sound kept =
      let fits = kept e refl in add_entry-IsSound s peer_id e sound fits.0 fits.1

  check_register-Follows :
      (known : Option TrustEntry) (e : TrustEntry)
      → check_register known e ≡ ok tt
      → Follows known e
  unfolding check_register expected_revision other_protocol
  check_register-Follows none e h = ground (arith, status_eq.beq_iff e.status pending_review)
  check_register-Follows (some p) e h =
      registered (ground (arith, status_eq.beq_iff e.status pending_review)) (ground arith)

  check_transition-eq :
      (target : TrustStatus) (revision : ℕ) (known : Option TrustEntry) {p : TrustEntry}
      → check_transition target revision known ≡ ok p
      → (known ≡ some p) × (target ≡ active → p.status ≡ pending_review)
  unfolding check_transition or_raise
  check_transition-eq target revision none h = cc
  check_transition-eq target revision (some q) h =
      let (_, known) =
        raise_if-eq-ok (not (nat_beq q.revision revision)) concurrency_conflict _ h in
      let (awaited, open_to) =
        raise_if-eq-ok (target == active && not (q.status == pending_review)) policy_denied _
          known in
      let (_, stored) =
        raise_if-eq-ok (not (target == active) && is_terminal q.status) policy_denied (ok q)
          open_to in
      let same : q ≡ _ = ok-injective stored in
      (
        ap some same,
        λ activated.
            ap (λ (e : TrustEntry). e.status) (sym same)
            ∙ ground (
              arith,
              awaited,
              activated,
              status_eq.beq_iff target active,
              status_eq.beq_iff q.status pending_review,
            ),
      )

  -- A copy that no validator has seen is accepted by it.
  transitioned-IsValid :
      (target : TrustStatus) (reviewer_ref : String) (now : ℕ) (p : TrustEntry)
      → IsValid p
      → IsValid (transitioned rt target reviewer_ref now p)
  unfolding validate_trust_shape transitioned is_none
  transitioned-IsValid target reviewer_ref now p valid =
      ground (arith, sorted_set-cons reviewer_ref p.reviewed_by)

  pub newest-IsValid :
      (xs : List TrustEntry) {p : TrustEntry} → All IsValid xs → newest xs ≡ some p → IsValid p
  unfolding newest
  newest-IsValid [] h is = cc
  newest-IsValid (x ∷ xs) h is = subst IsValid (some-injective _ _ is) (All-last IsValid x xs h)

  pub transition-IsSound :
      (u : Unicode) (s : TrustRegistry) (target : TrustStatus) (word peer_id : String)
      (revision : ℕ) (reviewer_ref : String) (now : ℕ) (typed : String)
      → IsSound s
      → IsSound (transition rt u target word peer_id revision reviewer_ref now typed s).1
  unfolding transition copied
  transition-IsSound u s target word peer_id revision reviewer_ref now typed sound =
      store_entry-IsSound s peer_id _ sound (λ e done.
        let (_, confirmed) =
          raise_if-eq-ok (not (typed == (word +str+ peer_id))) payload_rejected _ done in
        let (p, checked, stored) =
          >>=-eq-ok (check_transition target revision (current s peer_id)) _ confirmed in
        let (_, _, made) =
          >>=-eq-ok (digest_value u rt (change_document rt p target reviewer_ref)) _ stored in
        let (known, awaited) = check_transition-eq target revision (current s peer_id) checked in
        let same : e ≡ transitioned rt target reviewer_ref now p = sym (ok-injective made) in
        (
          rw known (moved target reviewer_ref now awaited same),
          rw same (
              transitioned-IsValid target reviewer_ref now p
                (newest-IsValid (history s peer_id) (sound.valid peer_id) known)),
        ))

  pub register-IsSound :
      (s : TrustRegistry) (e : TrustEntry) → IsSound s → IsValid e → IsSound (register e s).1
  unfolding register
  register-IsSound s e sound valid = store_entry-IsSound s e.peer_id _ sound (λ x done.
      let (_, checked, stored) = >>=-eq-ok (check_register (current s e.peer_id) e) _ done in
      let same = ok-injective stored in
      (rw (← same) (check_register-Follows (current s e.peer_id) e checked), rw (← same) valid))
