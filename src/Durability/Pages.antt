-- ===== src/Durability/Pages.antt =====
-- `get_run`, `activity_artifact`, `timeline`, `delivery` and `replay_legacy` of durability.py: what reads the ledger
-- page by page, and what imports an older one.
pub mod Order
pub mod Artifact
pub mod Paging
mod Tests
use aegis_framework_platform.Base.{
  ℕ, zero, suc, ◌+◌, ◌-◌, String, Bool, true, false, not, ◌&&◌, Option, none, some, List, [], ◌∷◌,
  ◌++◌, value_error, ltb, leb, ◌==◌, if◌then◌else◌, string_eq, pair_eq, length, take, last_of,
  integrity_failure, index_error, Result, ok, err, ◌>>=◌, ◌>>◌, raise_if, Action,
}
use aegis_framework_platform.Base.Dict.{Dict, get}
use aegis_framework_platform.Runtime.{
  Json, text, Payload, Runtime, stable_id, decimal, is_identifier,
}
use aegis_framework_platform.Durability.{
  Durability, ApplicationEvent, EventDraft, DeliveryRecord, RunView, RunStatus,
}
use aegis_framework_platform.Durability.Reduce.{reduce_run}
use aegis_framework_platform.Durability.Append.{append, Batch}
use aegis_framework_platform.Durability.Verify.{events}
use aegis_framework_platform.Durability.Commands.{identifiers, event_draft}
use aegis_framework_platform.Durability.Cursor.{ByteLibrary, encode}

unfoldable pub get_run : Durability → String → String → Option RunView
get_run s tenant_id run_id = get (tenant_id, run_id) s.runs

unfoldable pub delivery : Durability → String → String → String → Option DeliveryRecord
delivery s tenant_id direction message_id = get (tenant_id, (direction, message_id)) s.deliveries

-- `self.events(tenant_id=..., aggregate_type="investigation", aggregate_id=run_id, ...)`
unfoldable pub run_page : Durability → String → String → ℕ → ℕ → Result (List ApplicationEvent)
run_page s tenant_id run_id after_cursor limit =
    events s tenant_id (some "investigation") (some run_id) after_cursor limit

abbrev pub maximum_events : ℕ
maximum_events = 10000

-- The loop variables of `activity_artifact`.
pub record ArtifactScan : Type 0 where
  pub after_cursor : ℕ
  pub scanned : ℕ
  pub latest : Option Payload

abbrev pub artifact_start : ArtifactScan
artifact_start = record { after_cursor = 0; scanned = 0; latest = none }

-- `for event in page`
unfoldable pub latest_of : String → Option Payload → List ApplicationEvent → Option Payload
latest_of event_type latest [] = latest
latest_of event_type latest (event ∷ rest) =
    latest_of event_type (if event.event_type == event_type then some event.payload else latest)
      rest

-- `page[-1].tenant_cursor`
unfoldable pub last_cursor : List ApplicationEvent → Result ℕ
last_cursor [] = err index_error
last_cursor (event ∷ rest) = ok (last_of event rest).tenant_cursor

-- What a pass of the loop does: it leaves the loop with a result, or goes on.
pub data Pass : Type 0 where
  ended : Result (Option Payload) → Pass
  going : ArtifactScan → Pass

unfoldable pub turn_page : Option Payload → ℕ → Result ℕ → Pass
turn_page latest scanned (err e) = ended (err e)
turn_page latest scanned (ok after_cursor) =
    going (record { after_cursor = after_cursor; scanned = scanned; latest = latest })

unfoldable pub read_page : String → ArtifactScan → ℕ → Result (List ApplicationEvent) → Pass
read_page event_type v page_limit (err e) = ended (err e)
read_page event_type v page_limit (ok page) =
    let latest = latest_of event_type v.latest page in
    if ltb (length page) page_limit
    then ended (ok latest)
    else turn_page latest (v.scanned + length page) (last_cursor page)

-- `if self.events(...): raise`
unfoldable pub none_left : List ApplicationEvent → Option Payload → Result (Option Payload)
none_left [] latest = ok latest
none_left (event ∷ rest) latest = err integrity_failure

-- `min(500, maximum_events - scanned)`
abbrev pub page_limit_of : ℕ → ℕ
page_limit_of scanned = if ltb (maximum_events - scanned) 500 then maximum_events - scanned else 500

unfoldable pub artifact_pass : Durability → String → String → String → ArtifactScan → Pass
artifact_pass s tenant_id run_id event_type v =
    if ltb v.scanned maximum_events
    then read_page event_type v (page_limit_of v.scanned)
        (run_page s tenant_id run_id v.after_cursor (page_limit_of v.scanned))
    else ended (do left ← run_page s tenant_id run_id v.after_cursor 1; none_left left v.latest)

-- `while scanned < maximum_events`; `none` means that the fuel ran out
unfoldable pub artifact_loop :
    ℕ → Durability → String → String → String → ArtifactScan → Option (Result (Option Payload))
artifact_loop zero s tenant_id run_id event_type v = none
artifact_loop (suc fuel) s tenant_id run_id event_type v =
    elim (artifact_pass s tenant_id run_id event_type v) [
      | ended result ↦ some result
      | going w ↦ artifact_loop fuel s tenant_id run_id event_type w
    ]

-- Twenty full pages, and a pass that leaves the loop. Each page takes the lock for itself in the
-- source: this is the run of the loop in which no other call comes between two of its pages.
unfoldable pub activity_artifact :
    Durability → String → String → String → Option (Result (Option Payload))
activity_artifact s tenant_id run_id event_type =
    artifact_loop 21 s tenant_id run_id event_type artifact_start

pub record TimelineItem : Type 0 where
  pub cursor : ℕ
  pub event_type : String
  pub occurred_at : ℕ
  pub status : RunStatus
  pub failure_code : Option String

pub record TimelinePage : Type 0 where
  pub items : List TimelineItem
  pub next_cursor : Option String

-- `failure_code if isinstance(failure_code, str) else None`
unfoldable pub text_or_none : Option Json → Option String
text_or_none (some (text s)) = some s
text_or_none _ = none

-- The field's type is `Identifier | None`: its `ValidationError` is a `ValueError`.
unfoldable pub optional_identifier : Option String → Result (Option String)
optional_identifier none = ok none
optional_identifier (some value) = do
  raise_if (not (is_identifier value)) value_error
  ok (some value)

unfoldable pub timeline_item : ApplicationEvent → RunStatus → Result TimelineItem
unfolding text_or_none optional_identifier
timeline_item event status = do
  failure_code ← optional_identifier (text_or_none (get "failure_code" event.payload))
  ok (record {
    cursor = event.tenant_cursor;
    event_type = event.event_type;
    occurred_at = event.occurred_at;
    status = status;
    failure_code = failure_code;
  })

-- `if event.tenant_cursor > after_cursor`: what the pass appends, or raises
unfoldable pub appended_item : Bool → ApplicationEvent → RunStatus → Result (List TimelineItem)
appended_item false event status = ok []
appended_item true event status = do item ← timeline_item event status; ok (item ∷ [])

-- `visible[-1].cursor`, encoded, where more has been projected than is shown
unfoldable pub next_token : (ℕ → String) → Bool → List TimelineItem → Option String
next_token encoded more [] = none
next_token encoded more (item ∷ rest) =
    if more then some (encoded (last_of item rest).cursor) else none

module _ (rt : Runtime) where
  -- The loop of `timeline`: every event is reduced, and those behind the cursor are appended.
  unfoldable pub project_timeline :
      Option RunView → ℕ → List ApplicationEvent → Result (List TimelineItem)
  project_timeline projection after_cursor [] = ok []
  project_timeline projection after_cursor (event ∷ rest) = do
    view ← reduce_run rt projection event
    appended ← appended_item (ltb after_cursor event.tenant_cursor) event view.status
    later ← project_timeline (some view) after_cursor rest
    ok (appended ++ later)

  unfoldable pub timeline :
      ByteLibrary → List ℕ → Durability → String → String → ℕ → ℕ → Result TimelinePage
  timeline lib key s tenant_id run_id after_cursor limit = do
    page ← run_page s tenant_id run_id 0 500
    projected ← project_timeline none after_cursor page
    ok (record {
      items = take limit projected;
      next_cursor =
          next_token (encode rt lib key tenant_id run_id) (ltb limit (length projected))
            (take limit projected);
    })

-- `LegacyEvent`, whose payload the caller's `upcast` reads.
pub record LegacyEvent : Type 0 where
  pub event_type : String
  pub occurred_at : ℕ
  pub payload : Payload

module _ (rt : Runtime) (upcast : LegacyEvent → String × Payload) where
  unfoldable pub legacy_draft :
      String → String → String → String → ℕ → LegacyEvent → Result EventDraft
  legacy_draft tenant_id aggregate_id actor_ref correlation_ref index item =
      let (event_type, payload) = upcast item in
      do
        identifiers (event_type ∷ actor_ref ∷ correlation_ref ∷ [])
        event_draft rt (record {
          event_id =
              stable_id rt "legacy-event"
                (tenant_id ∷ aggregate_id ∷ decimal index ∷ item.event_type ∷ []) 32;
          event_type = event_type;
          occurred_at = item.occurred_at;
          actor_ref = actor_ref;
          correlation_ref = correlation_ref;
          causation_ref = none;
          schema_version = 1;
          payload = payload;
        })

  -- The loop of `replay_legacy`, from the given index on.
  unfoldable pub legacy_drafts :
      String → String → String → String → ℕ → List LegacyEvent → Result (List EventDraft)
  unfolding legacy_draft
  legacy_drafts tenant_id aggregate_id actor_ref correlation_ref index [] = ok []
  legacy_drafts tenant_id aggregate_id actor_ref correlation_ref index (item ∷ rest) = do
    draft ← legacy_draft tenant_id aggregate_id actor_ref correlation_ref index item
    later ← legacy_drafts tenant_id aggregate_id actor_ref correlation_ref (index + 1) rest
    ok (draft ∷ later)

  unfoldable pub append_legacy :
      String → String → Result (List EventDraft) → Action Durability (List ApplicationEvent)
  append_legacy tenant_id aggregate_id (err e) s = (err e, s)
  append_legacy tenant_id aggregate_id (ok drafts) s =
      append rt
        (record {
          tenant_id = tenant_id;
          aggregate_type = "investigation";
          aggregate_id = aggregate_id;
          expected_version = 0;
          drafts = drafts;
          outbox = [];
          inbox = [];
        })
        s

  unfoldable pub replay_legacy :
      String
      → String
      → String
      → String
      → List LegacyEvent
      → Action Durability (List ApplicationEvent)
  unfolding legacy_drafts append_legacy
  replay_legacy tenant_id aggregate_id actor_ref correlation_ref legacy s =
      append_legacy tenant_id aggregate_id
        (legacy_drafts tenant_id aggregate_id actor_ref correlation_ref 1 legacy) s
