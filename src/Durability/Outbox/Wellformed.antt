-- ===== src/Durability/Outbox/Wellformed.antt =====
-- The deliveries of durability.py as a table of messages under their own keys.
use aegis_framework_platform.Base.{
  String, ℕ, ◌≤◌, ◌≡◌, refl, inl, inr, true, Bool-cases, ◌||◌, List, [], ◌∷◌, some, none, Option,
  arith, All, All-map, All-take, All-select, string_eq, pair_eq, select, ltb, All-both, ap, sym,
  ◌∙◌, subst, beq-eq_true, leb,
}
use aegis_framework_platform.Base.Dict.{
  get, put, IsDict, put-IsDict, IsDict-entries, All-put, All-get,
}
use aegis_framework_platform.Runtime.{Runtime}
use aegis_framework_platform.Durability.{
  Durability, DeliveryRecord, DeliveryClaim, DeliveryStatus, OutboxDraft, InboxDraft,
  max_delivery_attempts,
}
use aegis_framework_platform.Durability.Append.{put_outbox, put_inbox}
use aegis_framework_platform.Durability.Outbox.{
  Deliveries, is_due, insert_sorted, sort_records, values_of, candidates, delivery_key, lease,
  store_leases, settle, update_claim, claim_outbox, is_before, holds, claim_key,
}

-- An entry of the table: its key is the record's, and at most five attempts were made.
pub record IsEntry (entry : (String × (String × String)) × DeliveryRecord) : Type 0 where
  pub key : entry.0 ≡ (entry.1.tenant_id, (entry.1.direction, entry.1.message_id))
  pub bounded : entry.1.attempts ≤ max_delivery_attempts

pub record IsTable (d : Deliveries) : Type 0 where
  pub unique : IsDict d
  pub entries : All IsEntry d

pub put-IsTable :
    (k : String × (String × String)) (v : DeliveryRecord) (d : Deliveries)
    → IsEntry (k, v)
    → IsTable d
    → IsTable (put k v d)
put-IsTable k v d e h = record {
  unique = put-IsDict k v d h.unique;
  entries = All-put IsEntry k v d e h.entries;
}

pub put_outbox-IsTable :
    (tenant_id : String) (ms : List OutboxDraft) (d : Deliveries)
    → IsTable d
    → IsTable (put_outbox tenant_id ms d)
unfolding put_outbox
put_outbox-IsTable tenant_id [] d h = h
put_outbox-IsTable tenant_id (m ∷ ms) d h =
    put_outbox-IsTable tenant_id ms _
      (put-IsTable _ _ d (record { key = refl; bounded = omega arith }) h)

pub put_inbox-IsTable :
    (tenant_id : String) (at : ℕ) (ms : List InboxDraft) (d : Deliveries)
    → IsTable d
    → IsTable (put_inbox tenant_id at ms d)
unfolding put_inbox
put_inbox-IsTable tenant_id at [] d h = h
put_inbox-IsTable tenant_id at (m ∷ ms) d h =
    put_inbox-IsTable tenant_id at ms _
      (put-IsTable _ _ d (record { key = refl; bounded = omega arith }) h)

-- A candidate is a listed message that is due, under its own key.
pub record IsCandidate (tenant_id : String) (now : ℕ) (d : Deliveries) (r : DeliveryRecord)
    : Type 0 where
  pub found : get (delivery_key r) d ≡ some r
  pub due : is_due tenant_id now (delivery_key r, r) ≡ true
  pub outbox : r.direction ≡ "outbox"
  pub bounded : r.attempts ≤ max_delivery_attempts

insert_sorted-All {ℓ} :
    (P : DeliveryRecord → Type ℓ) (x : DeliveryRecord) (xs : List DeliveryRecord)
    → P x
    → All P xs
    → All P (insert_sorted x xs)
unfolding insert_sorted
insert_sorted-All P x [] p h = (p, tt)
insert_sorted-All P x (y ∷ ys) p h = elim (Bool-cases (is_before x y)) [
  | inl before ↦ rw before (p, h)
  | inr after ↦ rw after (h.0, insert_sorted-All P x ys p h.1)
]

sort_records-All {ℓ} :
    (P : DeliveryRecord → Type ℓ) (xs : List DeliveryRecord) → All P xs → All P (sort_records xs)
unfolding sort_records
sort_records-All P [] h = tt
sort_records-All P (x ∷ xs) h =
    insert_sorted-All P x (sort_records xs) h.0 (sort_records-All P xs h.1)

values_of-All {ℓ} :
    (P : DeliveryRecord → Type ℓ) (xs : List ((String × (String × String)) × DeliveryRecord))
    → All (λ (e : (String × (String × String)) × DeliveryRecord). P e.1) xs
    → All P (values_of xs)
unfolding values_of
values_of-All P [] h = tt
values_of-All P (x ∷ xs) h = (h.0, values_of-All P xs h.1)

module _ (tenant_id : String) (now : ℕ) (d : Deliveries) where
  abbrev Found : (String × (String × String)) × DeliveryRecord → Type 0
  Found entry = IsEntry entry × (get entry.0 d ≡ some entry.1)

  outbox_of_due :
      (entry : (String × (String × String)) × DeliveryRecord)
      → IsEntry entry
      → is_due tenant_id now entry ≡ true
      → entry.1.direction ≡ "outbox"
  unfolding is_due
  outbox_of_due entry h due =
      ap (λ (k : String × (String × String)). k.1.0) (sym h.key)
      ∙ beq-eq_true ⦃e = string_eq⦄ entry.0.1.0 "outbox" (ground arith)

  IsCandidate-of :
      (entry : (String × (String × String)) × DeliveryRecord)
      → Found entry × (is_due tenant_id now entry ≡ true)
      → IsCandidate tenant_id now d entry.1
  IsCandidate-of entry h =
      let out = outbox_of_due entry h.0.0 h.1 in
      let key : entry.0 ≡ delivery_key entry.1 =
        h.0.0.key ∙ (λ i. (entry.1.tenant_id, (out i, entry.1.message_id))) in
      record {
        found = subst (λ k. get k d ≡ some entry.1) key h.0.1;
        due = subst (λ k. is_due tenant_id now (k, entry.1) ≡ true) key h.1;
        outbox = out;
        bounded = h.0.0.bounded;
      }

  -- The candidates of a claim are due messages of the table, each under its own key.
  pub candidates-IsCandidate :
      (limit : ℕ) → IsTable d → All (IsCandidate tenant_id now d) (candidates tenant_id now limit d)
  unfolding candidates
  candidates-IsCandidate limit h = All-take _ limit _ (
      sort_records-All _ _ (
        values_of-All _ _ (
          All-map (select (is_due tenant_id now) d) IsCandidate-of (
            All-select Found (is_due tenant_id now) d
              (All-both IsEntry _ d h.entries (IsDict-entries d h.unique))))))

module _ (rt : Runtime) (worker_ref : String) (claim_until : ℕ) where
  lease-IsEntry :
      (tenant_id : String) (now : ℕ) (d : Deliveries) (r : DeliveryRecord)
      → IsCandidate tenant_id now d r
      → IsEntry (delivery_key r, lease rt worker_ref claim_until r)
  unfolding lease
  lease-IsEntry tenant_id now d r c = record {
    key = ground (arith, c.outbox);
    bounded = ground (arith, c.bounded);
  }

  pub store_leases-IsTable :
      (tenant_id : String) (now : ℕ) (d₀ : Deliveries) (rs : List DeliveryRecord) (d : Deliveries)
      → All (IsCandidate tenant_id now d₀) rs
      → IsTable d
      → IsTable (store_leases rt worker_ref claim_until rs d)
  unfolding store_leases
  store_leases-IsTable tenant_id now d₀ [] d c h = h
  store_leases-IsTable tenant_id now d₀ (r ∷ rs) d c h =
      store_leases-IsTable tenant_id now d₀ rs _ c.1
        (put-IsTable _ _ d (lease-IsEntry tenant_id now d₀ r c.0) h)

  pub claim_outbox-IsTable :
      (tenant_id : String) (now limit : ℕ) (s : Durability)
      → IsTable s.deliveries
      → IsTable (claim_outbox rt worker_ref claim_until tenant_id now limit s).1.deliveries
  unfolding claim_outbox
  claim_outbox-IsTable tenant_id now limit s h =
      elim (Bool-cases (ltb limit 1 || ltb 100 limit || leb claim_until now)) [
        | inl out ↦ rw out h
        | inr within ↦ rw within (
            store_leases-IsTable tenant_id now s.deliveries _ s.deliveries
              (candidates-IsCandidate tenant_id now s.deliveries limit h) h)
      ]

settle-IsTable :
    (claim : DeliveryClaim) (status : DeliveryStatus) (code : Option String) (retry : Option ℕ)
    (o : Option DeliveryRecord) (s : Durability)
    → get (claim_key claim) s.deliveries ≡ o
    → IsTable s.deliveries
    → IsTable (settle claim status code retry o s).1.deliveries
unfolding settle
settle-IsTable claim status code retry none s g h = h
settle-IsTable claim status code retry (some r) s g h = elim (Bool-cases (holds claim r)) [
  | inl held ↦ rw held (
      put-IsTable _ _ s.deliveries
        (let entry = All-get IsEntry (claim_key claim) r s.deliveries h.entries g in
          record { key = entry.key; bounded = entry.bounded })
        h)
  | inr lost ↦ rw lost h
]

-- Settling a claim, by its holder or not, keeps the table.
pub update_claim-IsTable :
    (claim : DeliveryClaim) (status : DeliveryStatus) (code : Option String) (retry : Option ℕ)
    (s : Durability)
    → IsTable s.deliveries
    → IsTable (update_claim claim status code retry s).1.deliveries
unfolding update_claim
update_claim-IsTable claim status code retry s h =
    settle-IsTable claim status code retry (get (claim_key claim) s.deliveries) s refl h
