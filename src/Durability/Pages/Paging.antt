-- ===== src/Durability/Pages/Paging.antt =====
-- `timeline` of durability.py: what pages in a row show.
use aegis_framework_platform.Base.{
  ℕ, zero, suc, ◌+◌, ◌≤◌, ◌<◌, String, ◌≡◌, refl, string_eq, sym, ap, ◌∙◌, Bool, true, false, inl,
  inr, ◌⊎◌, Bool-cases, Option, none, some, List, [], ◌∷◌, ◌++◌, arith, ltb, length, take, drop,
  select, last_of, take_add, Result, ok, err, ◌>>=◌, >>=-eq-ok, ok-injective,
}
use mathlib.Core.Option.{some-injective}
use aegis_framework_platform.Base.Dict.{get}
use aegis_framework_platform.Runtime.{Runtime}
use aegis_framework_platform.Durability.{Durability, ApplicationEvent, RunStatus, RunView}
use aegis_framework_platform.Durability.Reduce.{reduce_run}
use aegis_framework_platform.Durability.Verify.{verify_integrity, run_events}
use aegis_framework_platform.Durability.Cursor.{ByteLibrary, encode}
use aegis_framework_platform.Durability.Pages.{
  TimelineItem, TimelinePage, text_or_none, optional_identifier, timeline_item, appended_item,
  project_timeline, timeline, next_token,
}
use aegis_framework_platform.Durability.Pages.Order.{
  event_cursor, IsIncreasing, behind, IsPage, take-IsPage, take-IsIncreasing, run_page-eq,
  run_events-IsIncreasing, select-behind_all,
}

abbrev pub item_cursor : TimelineItem → ℕ
item_cursor item = item.cursor

-- The items that a call shows, or what it raises.
abbrev pub shown : Result TimelinePage → Result (List TimelineItem)
shown page = page >>= λ p. ok p.items

-- The items of a page in front of what a later call shows.
abbrev pub after_items : List TimelineItem → Result (List TimelineItem) → Result (List TimelineItem)
after_items front items = items >>= λ rest. ok (front ++ rest)

-- The items that a pass appends are none, or the one of its event, behind the cursor.
appended_item-eq :
    (visible : Bool) (e : ApplicationEvent) (status : RunStatus) {front : List TimelineItem}
    → appended_item visible e status ≡ ok front
    → ((visible ≡ false) × (front ≡ []))
      ⊎ ((visible ≡ true)
          × (item : TimelineItem) × (front ≡ item ∷ [])
          × (item_cursor item ≡ e.tenant_cursor))
unfolding appended_item timeline_item
appended_item-eq false e status h = inl (refl, sym (ok-injective h))
appended_item-eq true e status h =
    let (item, built, whole) = >>=-eq-ok (timeline_item e status) _ h in
    let (code, _, made) =
      >>=-eq-ok (optional_identifier (text_or_none (get "failure_code" e.payload))) _ built in
    inr (refl, item, sym (ok-injective whole), ap item_cursor (sym (ok-injective made)))

appended_past :
    (c : ℕ) (e : ApplicationEvent) (status : RunStatus)
    → ltb c e.tenant_cursor ≡ false
    → appended_item (ltb c e.tenant_cursor) e status ≡ ok []
unfolding appended_item
appended_past c e status past = rw past

module _ (rt : Runtime) where
  -- A pass of the loop that raises nothing.
  record IsPass (a : ℕ) (e : ApplicationEvent) (es : List ApplicationEvent) (view : Option RunView)
      (items : List TimelineItem) : Type 0 where
    next : RunView
    reduced : reduce_run rt view e ≡ ok next
    front : List TimelineItem
    appended : appended_item (ltb a e.tenant_cursor) e next.status ≡ ok front
    later : List TimelineItem
    projected : project_timeline rt (some next) a es ≡ ok later
    whole : items ≡ front ++ later

  project_timeline-IsPass :
      (a : ℕ) (e : ApplicationEvent) (es : List ApplicationEvent) (view : Option RunView)
      {items : List TimelineItem}
      → project_timeline rt view a (e ∷ es) ≡ ok items
      → IsPass a e es view items
  unfolding project_timeline
  project_timeline-IsPass a e es view h =
      let (next, reduced, after) = >>=-eq-ok (reduce_run rt view e) _ h in
      let (front, appended, rest) =
        >>=-eq-ok (appended_item (ltb a e.tenant_cursor) e next.status) _ after in
      let (later, projected, whole) = >>=-eq-ok (project_timeline rt (some next) a es) _ rest in
      record {
        next = next;
        reduced = reduced;
        front = front;
        appended = appended;
        later = later;
        projected = projected;
        whole = sym (ok-injective whole);
      }

  -- Where the items behind a cursor can be built, a later cursor shows those of them that stand behind it.
  project_timeline-later :
      (a c : ℕ) (es : List ApplicationEvent) (view : Option RunView) (items : List TimelineItem)
      → a ≤ c
      → project_timeline rt view a es ≡ ok items
      → project_timeline rt view c es ≡ ok (select (behind item_cursor c) items)
  unfolding project_timeline
  project_timeline-later a c [] view items le h = rw (← ok-injective h)
  project_timeline-later a c (e ∷ es) view items le h =
      let p = project_timeline-IsPass a e es view h in
      let rest = project_timeline-later a c es (some p.next) p.later le p.projected in
      elim (appended_item-eq (ltb a e.tenant_cursor) e p.next.status p.appended) [
        | inl (past, none_built) ↦
            let left = appended_past c e p.next.status (ground (arith, past)) in
            rw (p.reduced, left, rest, p.whole, none_built)
        | inr (visible, item, built, at) ↦ elim (Bool-cases (ltb c e.tenant_cursor)) [
          | inl shown_too ↦
              let same : ltb c (item_cursor item) ≡ true = ap (ltb c) at ∙ shown_too in
              let appended =
                ap (λ b. appended_item b e p.next.status) (shown_too ∙ sym visible) ∙ p.appended in
              rw (p.reduced, appended, rest, p.whole, built, same)
          | inr now_past ↦
              let same : ltb c (item_cursor item) ≡ false = ap (ltb c) at ∙ now_past in
              let left = appended_past c e p.next.status now_past in
              rw (p.reduced, left, rest, p.whole, built, same)
        ]
      ]

  -- The items come in the order of the events, from behind the cursor on.
  project_timeline-IsIncreasing :
      (a b low : ℕ) (es : List ApplicationEvent) (view : Option RunView) (items : List TimelineItem)
      → IsIncreasing event_cursor b es
      → (low ≤ a) ⊎ (low ≤ b)
      → project_timeline rt view a es ≡ ok items
      → IsIncreasing item_cursor low items
  unfolding project_timeline
  project_timeline-IsIncreasing a b low [] view items inc le h = rw (← ok-injective h) tt
  project_timeline-IsIncreasing a b low (e ∷ es) view items inc le h =
      let p = project_timeline-IsPass a e es view h in
      elim (appended_item-eq (ltb a e.tenant_cursor) e p.next.status p.appended) [
        | inl (past, none_built) ↦
            rw (p.whole, none_built)
              (project_timeline-IsIncreasing a e.tenant_cursor low es (some p.next) p.later inc.1
                (ground (arith, inc.0, le)) p.projected)
        | inr (visible, item, built, at) ↦
            rw (p.whole, built)
              (
                rw at (ground (arith, visible, inc.0, le)),
                rw at (
                    project_timeline-IsIncreasing a e.tenant_cursor e.tenant_cursor es (some p.next)
                      p.later inc.1 (inr (omega arith)) p.projected),
              )
      ]

next_token-more :
    (f : ℕ → String) (more : Bool) (items : List TimelineItem) {token : String}
    → next_token f more items ≡ some token
    → more ≡ true
unfolding next_token
next_token-more f more [] h = cc
next_token-more f true (item ∷ items) h = refl
next_token-more f false (item ∷ items) h = cc

next_token-last :
    (f : ℕ → String) (more : Bool) (items : List TimelineItem) {token : String}
    {first : TimelineItem} {others : List TimelineItem}
    → items ≡ first ∷ others
    → next_token f more items ≡ some token
    → token ≡ f (item_cursor (last_of first others))
unfolding next_token
next_token-last f more items taken h = elim (Bool-cases more) [
  | inl yes_more ↦ sym (some-injective _ _ (rw (taken, yes_more, next_token) at h))
  | inr no_more ↦ cc (rw (taken, no_more, next_token) at h)
]

module _ (rt : Runtime) (lib : ByteLibrary) (key : List ℕ) (s : Durability)
    (tenant_id run_id : String) where
  -- The items behind a cursor, of which a page shows the first.
  all_items : ℕ → Result (List TimelineItem)
  all_items after_cursor =
      project_timeline rt none after_cursor (take 500 (run_events s tenant_id run_id))

  timeline-eq :
      (after_cursor limit : ℕ)
      → verify_integrity rt s tenant_id ≡ true
      → timeline rt lib key s tenant_id run_id after_cursor limit ≡ (
          all_items after_cursor >>= λ items. ok (record {
            items = take limit items;
            next_cursor =
                next_token
                  (encode rt lib key tenant_id run_id)
                  (ltb limit (length items))
                  (take limit items);
          }))
  unfolding timeline all_items
  timeline-eq after_cursor limit h = rw (
    run_page-eq s tenant_id run_id 0 500 (omega arith) (omega arith),
    select-behind_all event_cursor 0 0 (run_events s tenant_id run_id) (omega arith)
        (run_events-IsIncreasing rt s tenant_id run_id h),
  )

  module _ (verified : verify_integrity rt s tenant_id ≡ true) where
    all_items-IsIncreasing :
        (after_cursor : ℕ)
        → (items : List TimelineItem) → all_items after_cursor ≡ ok items
        → IsIncreasing item_cursor after_cursor items
    unfolding all_items
    all_items-IsIncreasing after_cursor items h =
        project_timeline-IsIncreasing rt after_cursor 0 after_cursor
          (take 500 (run_events s tenant_id run_id)) none items
          (take-IsIncreasing event_cursor 500 0 (run_events s tenant_id run_id)
            (run_events-IsIncreasing rt s tenant_id run_id verified))
          (inl (omega arith)) h

    shown-timeline :
        (after_cursor limit : ℕ)
        → shown (timeline rt lib key s tenant_id run_id after_cursor limit)
          ≡ (all_items after_cursor >>= λ items. ok (take limit items))
    shown-timeline after_cursor limit =
        rw (timeline-eq after_cursor limit verified) (shown_taken (all_items after_cursor))
      where
        shown_taken :
            (r : Result (List TimelineItem))
            → shown (
                r >>= λ items. ok (record {
                  items = take limit items;
                  next_cursor =
                      next_token
                        (encode rt lib key tenant_id run_id)
                        (ltb limit (length items))
                        (take limit items);
                }))
              ≡ (r >>= λ items. ok (take limit items))
        shown_taken (err e) = refl
        shown_taken (ok items) = refl

    -- The next page, behind the last item of a page that is full.
    IsPage-resumes :
        (after_cursor limit more : ℕ) (items : List TimelineItem)
        → all_items after_cursor ≡ ok items
        → (p : IsPage item_cursor after_cursor limit items)
        → let cursor = item_cursor (last_of p.first p.others) in
          shown (timeline rt lib key s tenant_id run_id after_cursor (limit + more))
          ≡ after_items
              (take limit items)
              (shown (timeline rt lib key s tenant_id run_id cursor more))
    unfolding all_items
    IsPage-resumes after_cursor limit more items projected p =
        let cursor = item_cursor (last_of p.first p.others) in
        let later : all_items cursor ≡ ok (drop limit items) =
          project_timeline-later rt after_cursor cursor (take 500 (run_events s tenant_id run_id))
            none items (omega (arith, p.later)) projected
          ∙ ap ok p.behind_it in
        rw
          (shown-timeline after_cursor (limit + more), projected, shown-timeline cursor more, later)
          (ap ok (take_add limit more items))

    full_page :
        (after_cursor limit more : ℕ) (items : List TimelineItem) (token : String)
        → all_items after_cursor ≡ ok items
        → IsIncreasing item_cursor after_cursor items
        → next_token
            (encode rt lib key tenant_id run_id)
            (ltb limit (length items))
            (take limit items)
          ≡ some token
        → (cursor : ℕ) × (after_cursor < cursor)
          × (token ≡ encode rt lib key tenant_id run_id cursor)
          × (shown (timeline rt lib key s tenant_id run_id after_cursor (limit + more))
              ≡ after_items
                  (take limit items)
                  (shown (timeline rt lib key s tenant_id run_id cursor more)))
    unfolding next_token
    full_page after_cursor zero more items token projected inc next = cc
    full_page after_cursor (suc n) more items token projected inc next =
        let full =
          next_token-more (encode rt lib key tenant_id run_id) (ltb (suc n) (length items))
            (take (suc n) items) next in
        let p = take-IsPage item_cursor after_cursor n items inc (ground (arith, full)) in
        (
          item_cursor (last_of p.first p.others),
          p.later,
          next_token-last (encode rt lib key tenant_id run_id) _ (take (suc n) items) p.taken next,
          IsPage-resumes after_cursor (suc n) more items projected p,
        )

    -- Where the hash chain of the tenant verifies and a page of a run has a token for a next page,
    -- that is the token of a cursor beyond the one asked for, and a page of any size behind that
    -- cursor continues the first one: both in a row are what one page of both sizes shows.
    pub timeline-resumes :
        (after_cursor limit more : ℕ) (page : TimelinePage) (token : String)
        → timeline rt lib key s tenant_id run_id after_cursor limit ≡ ok page
        → page.next_cursor ≡ some token
        → (cursor : ℕ) × (after_cursor < cursor)
          × (token ≡ encode rt lib key tenant_id run_id cursor)
          × (shown (timeline rt lib key s tenant_id run_id after_cursor (limit + more))
              ≡ after_items page.items (shown (timeline rt lib key s tenant_id run_id cursor more)))
    timeline-resumes after_cursor limit more page token first next =
        let (items, projected, whole) =
          >>=-eq-ok (all_items after_cursor) _
            (sym (timeline-eq after_cursor limit verified) ∙ first) in
        let same : page.items ≡ take limit items = ground (arith, whole) in
        let named : next_token (encode rt lib key tenant_id run_id) (ltb limit (length items))
              (take limit items)
            ≡ some token =
          ground (arith, whole) in
        rw same (
          full_page after_cursor limit more items token projected
            (all_items-IsIncreasing after_cursor items projected) named)
