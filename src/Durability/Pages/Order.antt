-- ===== src/Durability/Pages/Order.antt =====
-- The cursors of a tenant's events, and the pages that they cut.
use aegis_framework_platform.Base.{
  ℕ, zero, suc, ◌+◌, ◌≤◌, ◌<◌, String, ◌≡◌, refl, Bool, true, inl, inr, Bool-cases, Option-cases,
  some, List, [], ◌∷◌, arith, ltb, ◌==◌, string_eq, length, take, drop, select, select-nested,
  last_of, ok,
}
use aegis_framework_platform.Runtime.{Runtime}
use aegis_framework_platform.Durability.{Durability, ApplicationEvent, tenant_events}
use aegis_framework_platform.Durability.Verify.{
  Scan, scan_start, advance, is_accepted, scan_events, verify_integrity, events, run_events,
  is_run_event,
}
use aegis_framework_platform.Durability.Pages.{run_page}

module _ {ℓ} {A : Type ℓ} (cursor : A → ℕ) where
  -- Cursors that grow from item to item, from behind the given one on.
  abbrev pub IsIncreasing : ℕ → List A → Type 0
  IsIncreasing after [] = Unit
  IsIncreasing after (x ∷ rest) = (after < cursor x) × IsIncreasing (cursor x) rest

  abbrev pub behind : ℕ → A → Bool
  behind after x = ltb after (cursor x)

  pub IsIncreasing-weak : (a b : ℕ) (xs : List A) → a ≤ b → IsIncreasing b xs → IsIncreasing a xs
  IsIncreasing-weak a b [] le h = tt
  IsIncreasing-weak a b (x ∷ xs) le h = (omega (arith, h.0), h.1)

  select-IsIncreasing :
      (p : A → Bool) (a : ℕ) (xs : List A) → IsIncreasing a xs → IsIncreasing a (select p xs)
  select-IsIncreasing p a [] h = tt
  select-IsIncreasing p a (x ∷ xs) h = elim (Bool-cases (p x)) [
    | inl chosen ↦ rw chosen (h.0, select-IsIncreasing p (cursor x) xs h.1)
    | inr left ↦ rw left (
        IsIncreasing-weak a (cursor x) _ (omega (arith, h.0))
          (select-IsIncreasing p (cursor x) xs h.1))
  ]

  pub take-IsIncreasing : (n a : ℕ) (xs : List A) → IsIncreasing a xs → IsIncreasing a (take n xs)
  take-IsIncreasing zero a xs h = tt
  take-IsIncreasing (suc n) a [] h = tt
  take-IsIncreasing (suc n) a (x ∷ xs) h = (h.0, take-IsIncreasing n (cursor x) xs h.1)

  -- All items stand behind a cursor that is not above the first.
  pub select-behind_all :
      (a b : ℕ) (xs : List A) → a ≤ b → IsIncreasing b xs → select (behind a) xs ≡ xs
  select-behind_all a b [] le h = refl
  select-behind_all a b (x ∷ xs) le h = ground (arith, select-behind_all a (cursor x) xs, h.0)

  -- What stands behind a later cursor stands behind an earlier one.
  pub select-behind_later :
      (a c : ℕ) (xs : List A)
      → a ≤ c
      → select (behind c) (select (behind a) xs) ≡ select (behind c) xs
  select-behind_later a c [] le = refl
  select-behind_later a c (x ∷ xs) le = ground (arith, select-behind_later a c xs le)

  -- A full page of increasing items, its last cursor, and what stands behind that.
  pub record IsPage (after n : ℕ) (rest : List A) : Type ℓ where
    pub first : A
    pub others : List A
    pub taken : take n rest ≡ first ∷ others
    pub later : after < cursor (last_of first others)
    pub behind_it : select (behind (cursor (last_of first others))) rest ≡ drop n rest
    pub ordered : IsIncreasing (cursor (last_of first others)) (drop n rest)

  pub take-IsPage :
      (after n : ℕ) (rest : List A)
      → IsIncreasing after rest
      → n < length rest
      → IsPage after (suc n) rest
  take-IsPage after n [] h len = absurd (omega arith)
  take-IsPage after zero (x ∷ xs) h len = record {
    first = x;
    others = [];
    taken = refl;
    later = h.0;
    behind_it = ground (arith, select-behind_all (cursor x) (cursor x) xs (omega arith) h.1);
    ordered = h.1;
  }
  take-IsPage after (suc n) (x ∷ []) h len = absurd (omega arith)
  take-IsPage after (suc n) (x ∷ y ∷ xs) h len =
      let inner = take-IsPage (cursor x) n (y ∷ xs) h.1 (omega arith) in
      record {
        first = x;
        others = inner.first ∷ inner.others;
        taken = rw inner.taken;
        later = omega (arith, h.0, inner.later);
        behind_it = ground (arith, inner.later, inner.behind_it);
        ordered = inner.ordered;
      }

abbrev pub event_cursor : ApplicationEvent → ℕ
event_cursor event = event.tenant_cursor

module _ (rt : Runtime) where
  is_accepted-next :
      (v : Scan) (x : ApplicationEvent)
      → is_accepted rt v x ≡ true
      → x.tenant_cursor ≡ v.tenant.cursor + 1
  unfolding is_accepted
  is_accepted-next v x h = ground arith

  scan_events-IsIncreasing :
      (v w : Scan) (xs : List ApplicationEvent)
      → scan_events rt v xs ≡ some w
      → IsIncreasing event_cursor v.tenant.cursor xs
  unfolding scan_events
  scan_events-IsIncreasing v w [] h = tt
  scan_events-IsIncreasing v w (x ∷ xs) h = elim (Bool-cases (is_accepted rt v x)) [
    | inl fits ↦ (
      omega (arith, is_accepted-next v x fits),
      scan_events-IsIncreasing (advance v x) w xs (rw fits at h),
    )
    | inr stale ↦ cc (rw stale at h)
  ]

  -- In a chain that verifies the cursors of a run's events grow.
  pub run_events-IsIncreasing :
      (s : Durability) (tenant_id run_id : String)
      → verify_integrity rt s tenant_id ≡ true
      → IsIncreasing event_cursor 0 (run_events s tenant_id run_id)
  unfolding verify_integrity
  run_events-IsIncreasing s tenant_id run_id h =
      select-IsIncreasing event_cursor (is_run_event run_id) 0 (tenant_events s tenant_id)
        (elim (Option-cases (scan_events rt scan_start (tenant_events s tenant_id))) [
          | inl stale ↦ cc (rw (stale, verify_integrity) at h)
          | inr (w, scanned) ↦ scan_events-IsIncreasing scan_start w _ scanned
        ])

-- A page of a run's events: the next ones behind the cursor.
pub run_page-eq :
    (s : Durability) (tenant_id run_id : String) (after limit : ℕ)
    → 0 < limit
    → limit ≤ 500
    → run_page s tenant_id run_id after limit
      ≡ ok (take limit (select (behind event_cursor after) (run_events s tenant_id run_id)))
unfolding run_page events
run_page-eq s tenant_id run_id after limit low high =
    rw
      (← select-nested (behind event_cursor after)
        (λ event. event.aggregate_type == "investigation") (λ event. event.aggregate_id == run_id)
        (tenant_events s tenant_id))
      (ground arith)
