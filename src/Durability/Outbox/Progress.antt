-- ===== src/Durability/Outbox/Progress.antt =====
-- `claim_outbox` of durability.py call after call: what becomes of a message whose workers all crash.
use aegis_framework_platform.Base.{
  ℕ, suc, ◌+◌, ◌≤◌, ◌<◌, String, ◌≡◌, refl, sym, ap, ◌∙◌, subst, Bool, true, false, ◌||◌, inl, inr,
  Bool-cases, some, List, [], ◌∷◌, arith, All, All-map, ltb, leb, string_eq, pair_eq, beq_refl,
  beq-eq_true, contains, length, take, take_all, select,
}
use mathlib.Core.Option.{some-injective}
use aegis_framework_platform.Base.Dict.{get, put, get-put, All-get}
use aegis_framework_platform.Runtime.{Runtime}
use aegis_framework_platform.Durability.{
  Durability, DeliveryRecord, dead_letter, max_delivery_attempts,
}
use aegis_framework_platform.Durability.Outbox.{
  Deliveries, is_due, insert_sorted, sort_records, values_of, candidates, delivery_key, lease,
  store_leases, claim_outbox,
}
use aegis_framework_platform.Durability.Outbox.Wellformed.{
  IsEntry, IsTable, candidates-IsCandidate, claim_outbox-IsTable,
}
use aegis_framework_platform.Durability.Outbox.Leases.{keys_of, get-store_leases, found_candidates}
use aegis_framework_platform.Durability.Outbox.Promises.{
  OutboxReach, here, next, claim, OutboxReach-keeps_over,
}

-- Sorting loses no message.
contains-insert_sorted :
    (k : String × (String × String)) (x : DeliveryRecord) (xs : List DeliveryRecord)
    → contains k (keys_of (insert_sorted x xs)) ≡ contains k (keys_of (x ∷ xs))
unfolding contains keys_of insert_sorted
contains-insert_sorted k x [] = refl
contains-insert_sorted k x (y ∷ ys) = ground (arith, contains-insert_sorted k x ys)

contains-sort_records :
    (k : String × (String × String)) (xs : List DeliveryRecord)
    → contains k (keys_of (sort_records xs)) ≡ contains k (keys_of xs)
unfolding sort_records contains keys_of
contains-sort_records k [] = refl
contains-sort_records k (x ∷ xs) =
    contains-insert_sorted k x (sort_records xs)
    ∙ ap (λ (b : Bool). pair_eq.beq (delivery_key x) k || b) (contains-sort_records k xs)

length-insert_sorted :
    (x : DeliveryRecord) (xs : List DeliveryRecord) → length (insert_sorted x xs) ≡ suc (length xs)
unfolding insert_sorted
length-insert_sorted x [] = refl
length-insert_sorted x (y ∷ ys) = ground (arith, length-insert_sorted x ys)

length-sort_records : (xs : List DeliveryRecord) → length (sort_records xs) ≡ length xs
unfolding sort_records
length-sort_records [] = refl
length-sort_records (x ∷ xs) =
    length-insert_sorted x (sort_records xs) ∙ ap suc (length-sort_records xs)

length-values_of :
    (p : (String × (String × String)) × DeliveryRecord → Bool) (d : Deliveries)
    → length (values_of (select p d)) ≤ length d
unfolding values_of
length-values_of p [] = omega arith
length-values_of p (e ∷ d) = ground (arith, length-values_of p d)

-- A due message is among those that a claim goes through.
contains-due :
    (tenant_id : String) (now : ℕ) (k : String × (String × String)) (r : DeliveryRecord)
    (d : Deliveries)
    → get k d ≡ some r
    → is_due tenant_id now (k, r) ≡ true
    → delivery_key r ≡ k
    → contains k (keys_of (values_of (select (is_due tenant_id now) d))) ≡ true
unfolding get values_of contains keys_of
contains-due tenant_id now k r [] found due own = cc
contains-due tenant_id now k r ((j, v) ∷ d) found due own = elim (Bool-cases (pair_eq.beq j k)) [
  | inl same ↦
      let is_k : j ≡ k = beq-eq_true ⦃e = pair_eq⦄ j k same in
      let is_r : v ≡ r = some-injective v r (rw same at found) in
      let due_here : is_due tenant_id now (j, v) ≡ true =
        subst (λ (e : (String × (String × String)) × DeliveryRecord). is_due tenant_id now e ≡ true)
          (λ i. (sym is_k i, sym is_r i)) due in
      let own_here : pair_eq.beq (delivery_key v) k ≡ true =
        subst (λ (q : String × (String × String)). pair_eq.beq q k ≡ true)
          (sym (ap delivery_key is_r ∙ own)) (beq_refl ⦃e = pair_eq⦄ k) in
      rw due_here (ground (arith, own_here))
  | inr other ↦
      let later = contains-due tenant_id now k r d (rw other at found) due own in
      elim (Bool-cases (is_due tenant_id now (j, v))) [
        | inl first ↦ rw first (ground (arith, later))
        | inr past ↦ rw past later
      ]
]

-- Where as many messages may be claimed as there are, a due message gets its lease.
module _ (rt : Runtime) (tenant_id : String) (limit : ℕ) where
  claim_outbox-leases :
      (worker_ref : String) (claim_until now : ℕ) (s : Durability) (k : String × (String × String))
      (r : DeliveryRecord)
      → IsTable s.deliveries
      → get k s.deliveries ≡ some r
      → is_due tenant_id now (k, r) ≡ true
      → delivery_key r ≡ k
      → 1 ≤ limit
      → limit ≤ 100
      → length s.deliveries ≤ limit
      → now < claim_until
      → get k (claim_outbox rt worker_ref claim_until tenant_id now limit s).1.deliveries
        ≡ some (lease rt worker_ref claim_until r)
  unfolding claim_outbox candidates
  claim_outbox-leases worker_ref claim_until now s k r table found due own low high all later =
      let open_to : (ltb limit 1 || ltb 100 limit || leb claim_until now) ≡ false = ground arith in
      let due_ones = values_of (select (is_due tenant_id now) s.deliveries) in
      let whole : take limit (sort_records due_ones) ≡ sort_records due_ones =
        take_all limit (sort_records due_ones) (
          omega (
            arith,
            length-sort_records due_ones,
            length-values_of (is_due tenant_id now) s.deliveries,
          )) in
      let member : contains k (keys_of (take limit (sort_records due_ones))) ≡ true =
        rw (whole, contains-sort_records)
          (contains-due tenant_id now k r s.deliveries found due own) in
      rw open_to (
        get-store_leases rt worker_ref claim_until s.deliveries (take limit (sort_records due_ones))
          s.deliveries k
          (found_candidates tenant_id now s.deliveries _
            (unfold candidates in candidates-IsCandidate tenant_id now s.deliveries limit table))
        ∙ rw (member, found))

length-put_found :
    (k : String × (String × String)) (w v : DeliveryRecord) (d : Deliveries)
    → get k d ≡ some v
    → length (put k w d) ≡ length d
unfolding get put
length-put_found k w v [] found = cc
length-put_found k w v ((j, u) ∷ d) found = elim (Bool-cases (pair_eq.beq j k)) [
  | inl same ↦ rw same
  | inr other ↦ rw other (ap suc (length-put_found k w v d (rw other at found)))
]

-- The loop writes under keys that the table has.
module _ (rt : Runtime) (worker_ref : String) (claim_until : ℕ) where
  abbrev IsListed : Deliveries → DeliveryRecord → Type 0
  IsListed d r = (v : DeliveryRecord) × (get (delivery_key r) d ≡ some v)

  IsListed-put :
      (d : Deliveries) (k : String × (String × String)) (w r : DeliveryRecord)
      → IsListed d r
      → IsListed (put k w d) r
  IsListed-put d k w r (v, found) = elim (Bool-cases (pair_eq.beq k (delivery_key r))) [
    | inl same ↦ (w, rw (get-put, same))
    | inr other ↦ (v, rw (get-put, other) found)
  ]

  length-store_leases :
      (rs : List DeliveryRecord) (d : Deliveries)
      → All (IsListed d) rs
      → length (store_leases rt worker_ref claim_until rs d) ≡ length d
  unfolding store_leases
  length-store_leases [] d listed = refl
  length-store_leases (r ∷ rs) d listed =
      length-store_leases rs (put (delivery_key r) (lease rt worker_ref claim_until r) d)
        (All-map rs (λ x h. IsListed-put d (delivery_key r) _ x h) listed.1)
      ∙ length-put_found (delivery_key r) _ listed.0.0 d listed.0.1

  length-claim_outbox :
      (tenant_id : String) (now limit : ℕ) (s : Durability)
      → IsTable s.deliveries
      → length (claim_outbox rt worker_ref claim_until tenant_id now limit s).1.deliveries
        ≡ length s.deliveries
  unfolding claim_outbox
  length-claim_outbox tenant_id now limit s table =
      elim (Bool-cases (ltb limit 1 || ltb 100 limit || leb claim_until now)) [
        | inl out ↦ rw out
        | inr within ↦ rw within (
            length-store_leases (candidates tenant_id now limit s.deliveries) s.deliveries (
              All-map (candidates tenant_id now limit s.deliveries) (λ r c. (r, c.found))
                (candidates-IsCandidate tenant_id now s.deliveries limit table)))
      ]

-- A call of `claim_outbox`: who claims, when, and until when.
pub record Claiming : Type 0 where
  pub worker_ref : String
  pub now : ℕ
  pub claim_until : ℕ

-- Calls in a row, the first not before the given instant, each for a lease that ends behind it, and
-- the next not before that end.
abbrev pub IsRelay : ℕ → List Claiming → Type 0
IsRelay free [] = Unit
IsRelay free (c ∷ rest) = (free ≤ c.now) × (c.now < c.claim_until) × IsRelay c.claim_until rest

-- Workers that claim and never come back.
module _ (rt : Runtime) (tenant_id : String) (limit : ℕ) where
  unfoldable pub abandon : List Claiming → Durability → Durability
  abandon [] s = s
  abandon (c ∷ rest) s =
      abandon rest (claim_outbox rt c.worker_ref c.claim_until tenant_id c.now limit s).1

  abandon-reached :
      (calls : List Claiming) (s t : Durability)
      → OutboxReach rt s t
      → OutboxReach rt s (abandon calls t)
  unfolding abandon
  abandon-reached [] s t r = r
  abandon-reached (c ∷ rest) s t r =
      abandon-reached rest s _ (next r (claim c.worker_ref c.claim_until tenant_id c.now limit))

  due-later :
      (a b : ℕ) (k : String × (String × String)) (r : DeliveryRecord)
      → a ≤ b
      → is_due tenant_id a (k, r) ≡ true
      → is_due tenant_id b (k, r) ≡ true
  unfolding is_due
  due-later a b k r le due = ground arith

  lease-due :
      (w : String) (now until : ℕ) (k : String × (String × String)) (r : DeliveryRecord)
      → now ≤ until
      → is_due tenant_id now (k, r) ≡ true
      → ltb max_delivery_attempts (r.attempts + 1) ≡ false
      → is_due tenant_id until (k, lease rt w until r) ≡ true
  unfolding is_due lease
  lease-due w now until k r le due left = ground (arith, left)

  lease-over :
      (w : String) (until : ℕ) (r : DeliveryRecord)
      → ltb max_delivery_attempts (r.attempts + 1) ≡ true
      → (lease rt w until r).status ≡ dead_letter
  unfolding lease
  lease-over w until r used = ground (arith, used)

  lease-attempts :
      (w : String) (until : ℕ) (r : DeliveryRecord)
      → ltb max_delivery_attempts (r.attempts + 1) ≡ false
      → (lease rt w until r).attempts ≡ r.attempts + 1
  unfolding lease
  lease-attempts w until r left = ground (arith, left)

  lease-key :
      (w : String) (until : ℕ) (r : DeliveryRecord)
      → delivery_key (lease rt w until r) ≡ delivery_key r
  unfolding lease
  lease-key w until r = ground arith

  due_own :
      (now : ℕ) (k : String × (String × String)) (r : DeliveryRecord) (d : Deliveries)
      → IsTable d
      → get k d ≡ some r
      → is_due tenant_id now (k, r) ≡ true
      → delivery_key r ≡ k
  unfolding is_due
  due_own now k r d table found due =
      let key = (All-get IsEntry k r d table.entries found).key in
      let outbox : k.1.0 ≡ "outbox" = beq-eq_true ⦃e = string_eq⦄ k.1.0 "outbox" (ground arith) in
      let direction : "outbox" ≡ r.direction =
        sym outbox ∙ ap (λ (q : String × (String × String)). q.1.0) key in
      (λ i. (r.tenant_id, (direction i, r.message_id))) ∙ sym key

  -- On a well-formed table with at most as many deliveries as a call may claim, a message that is
  -- due at an instant is a dead letter at the end of a row of claim_outbox calls of its tenant and
  -- nothing else, by whatever workers and for leases of whatever length: the first call not before
  -- that instant, each next one not before the lease that the call in front asked for has run out,
  -- and together with the attempts before them more calls than the permitted attempts.
  pub abandon-ends :
      (calls : List Claiming) (free : ℕ) (s : Durability) (k : String × (String × String))
      (r : DeliveryRecord)
      → IsTable s.deliveries
      → IsRelay free calls
      → get k s.deliveries ≡ some r
      → is_due tenant_id free (k, r) ≡ true
      → max_delivery_attempts < r.attempts + length calls
      → 1 ≤ limit
      → limit ≤ 100
      → length s.deliveries ≤ limit
      → (last : DeliveryRecord) × (get k (abandon calls s).deliveries ≡ some last)
        × (last.status ≡ dead_letter)
  unfolding abandon
  abandon-ends [] free s k r table relay found due many low high all =
      absurd (omega (arith, (All-get IsEntry k r s.deliveries table.entries found).bounded))
  abandon-ends (c ∷ rest) free s k r table relay found due many low high all =
      let due_now = due-later free c.now k r relay.0 due in
      let own = due_own c.now k r s.deliveries table found due_now in
      let leased =
        claim_outbox-leases rt tenant_id limit c.worker_ref c.claim_until c.now s k r table found
          due_now own low high all relay.1 in
      let table' =
        claim_outbox-IsTable rt c.worker_ref c.claim_until tenant_id c.now limit s table in
      elim (Bool-cases (ltb max_delivery_attempts (r.attempts + 1))) [
        | inl used ↦ (
          lease rt c.worker_ref c.claim_until r,
          (OutboxReach-keeps_over k _ (inr (lease-over c.worker_ref c.claim_until r used)) rt _ _
              table' leased (abandon-reached rest _ _ here)).1,
          lease-over c.worker_ref c.claim_until r used,
        )
        | inr left ↦
            abandon-ends rest c.claim_until _ k _ table' relay.2 leased
              (lease-due c.worker_ref c.now c.claim_until k r (omega (arith, relay.1)) due_now left)
              (omega (arith, lease-attempts c.worker_ref c.claim_until r left)) low high
              (omega (
                arith,
                length-claim_outbox rt c.worker_ref c.claim_until tenant_id c.now limit s table,
              ))
      ]
