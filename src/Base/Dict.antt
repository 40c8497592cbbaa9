-- ===== src/Base/Dict.antt =====
-- Python's `dict`, in insertion order, with any key that has an `==`.
use aegis_framework_platform.Base.Tests.{Bool-cases, if◌then◌else◌}
use aegis_framework_platform.Base.Lists.{All, All-map}
use aegis_framework_platform.Base.Equality.{Eq, beq_refl, beq-eq_false}
use mathlib.Core.Path.{◌≡◌, refl, sym, subst}
use mathlib.Core.Logic.{◌≢◌, inl, inr}
use mathlib.Core.Bool.{Bool, true, false}
use mathlib.Core.Option.{Option, none, some, some-injective}
use mathlib.Core.List.{List, [], ◌∷◌}
use native.Mathlib.Omega.{arith}

abbrev pub Dict {ℓ κ} : Type ℓ → Type κ → Type (ℓ ⊔ κ)
Dict K V = List (K × V)

module _ {ℓ κ} {K : Type ℓ} {V : Type κ} ⦃e : Eq K⦄ where
  -- `d.get(k)`
  unfoldable pub get : K → Dict K V → Option V
  get k [] = none
  get k ((j, v) ∷ d) = if e.beq j k then some v else get k d

  -- `k in d`
  unfoldable pub has_key : K → Dict K V → Bool
  unfolding get
  has_key k d = elim (get k d) [ none ↦ false | some _ ↦ true ]

  -- `d[k] = v`
  unfoldable pub put : K → V → Dict K V → Dict K V
  put k v [] = (k, v) ∷ []
  put k v ((j, w) ∷ d) = if e.beq j k then (j, v) ∷ d else (j, w) ∷ put k v d

  -- `d.pop(k, None)`
  unfoldable pub pop : K → Dict K V → Dict K V
  pop k [] = []
  pop k ((j, v) ∷ d) = if e.beq j k then pop k d else (j, v) ∷ pop k d

  pub get-put :
      (k j : K) (v : V) (d : Dict K V) → get j (put k v d) ≡ (if e.beq k j then some v else get j d)
  unfolding get put
  get-put k j v [] = refl
  get-put k j v ((i, w) ∷ d) =
      ground (arith, e.beq_iff i k, e.beq_iff i j, e.beq_iff k j, get-put k j v d)

  pub get-put_self : (k : K) (v : V) (d : Dict K V) → get k (put k v d) ≡ some v
  get-put_self k v d = rw (get-put, beq_refl k)

  pub get-put_ne : (k j : K) (v : V) (d : Dict K V) → k ≢ j → get j (put k v d) ≡ get j d
  get-put_ne k j v d h = rw (get-put, beq-eq_false k j h)

  -- A second write to a key replaces the first.
  pub put-put_self : (k : K) (v w : V) (d : Dict K V) → put k w (put k v d) ≡ put k w d
  unfolding put
  put-put_self k v w [] = ground (arith, e.beq_iff k k)
  put-put_self k v w ((i, u) ∷ d) = ground (arith, e.beq_iff i k, put-put_self k v w d)

  pop-absent : (k : K) (d : Dict K V) → get k d ≡ none → pop k d ≡ d
  unfolding get pop
  pop-absent k [] h = refl
  pop-absent k ((i, w) ∷ d) h = ground (arith, pop-absent k d)

  -- Undoing the insertion of a new key gives the dictionary back.
  pub pop-put_new : (k : K) (v : V) (d : Dict K V) → get k d ≡ none → pop k (put k v d) ≡ d
  unfolding get put pop
  pop-put_new k v [] h = ground (arith, e.beq_iff k k)
  pop-put_new k v ((i, w) ∷ d) h = ground (arith, pop-put_new k v d)

  pub get-pop : (k j : K) (d : Dict K V) → get j (pop k d) ≡ (if e.beq k j then none else get j d)
  unfolding get pop
  get-pop k j [] = ground arith
  get-pop k j ((i, w) ∷ d) =
      ground (arith, e.beq_iff i k, e.beq_iff i j, e.beq_iff k j, get-pop k j d)

  -- Writing the value that is there changes no lookup.
  pub get-put_same :
      (k j : K) (v : V) (d : Dict K V) → get k d ≡ some v → get j (put k v d) ≡ get j d
  get-put_same k j v d h = elim (Bool-cases (e.beq k j)) [
    | inl same ↦ rw (get-put, same) (rw (← (e.beq_iff k j).0 same) (ground arith))
    | inr other ↦ rw (get-put, other)
  ]

  -- No key is listed twice.
  abbrev pub IsDict : Dict K V → Type κ
  IsDict [] = Unit
  IsDict ((k, v) ∷ d) = (get k d ≡ none) × IsDict d

  pub put-IsDict : (k : K) (v : V) (d : Dict K V) → IsDict d → IsDict (put k v d)
  unfolding get put
  put-IsDict k v [] h = (refl, tt)
  put-IsDict k v ((i, w) ∷ d) h =
      ground (arith, e.beq_iff i k, e.beq_iff k i, get-put k i v d, put-IsDict k v d h.1)

  -- What is listed is what is found.
  pub IsDict-entries :
      (d : Dict K V) → IsDict d → All (λ (entry : K × V). get entry.0 d ≡ some entry.1) d
  unfolding get
  IsDict-entries [] h = tt
  IsDict-entries ((i, w) ∷ d) h = (
    ground (arith, e.beq_iff i i),
    All-map d (λ entry found. ground (arith, e.beq_iff i entry.0, found, h.0))
        (IsDict-entries d h.1),
  )

  pub All-put {μ} :
      (P : K × V → Type μ) (k : K) (v : V) (d : Dict K V) → P (k, v) → All P d → All P (put k v d)
  unfolding put
  All-put P k v [] p h = (p, tt)
  All-put P k v ((i, w) ∷ d) p h = elim (Bool-cases (e.beq i k)) [
    | inl same ↦ rw same (subst (λ j. P (j, v)) (sym ((e.beq_iff i k).0 same)) p, h.1)
    | inr other ↦ rw other (h.0, All-put P k v d p h.1)
  ]

  -- What is found has the property that all listed entries have.
  pub All-get {μ} :
      (P : K × V → Type μ) (k : K) (v : V) (d : Dict K V) → All P d → get k d ≡ some v → P (k, v)
  unfolding get
  All-get P k v [] h g = cc
  All-get P k v ((i, w) ∷ d) h g = elim (Bool-cases (e.beq i k)) [
    | inl same ↦
        subst (λ (q : K × V). P q)
          (λ j. ((e.beq_iff i k).0 same j, some-injective w v (rw same at g) j)) h.0
    | inr other ↦ All-get P k v d h.1 (rw other at g)
  ]
