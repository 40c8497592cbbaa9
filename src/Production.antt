-- ===== src/Production.antt =====
-- production.py: the failover of the writer's region, and the verification of a restored ledger.
-- A field whose type is `Literal[True]` has one value and is left out.
pub mod Failover
pub mod Restore
mod Tests
use aegis_framework_platform.Base.{
  ℕ, ◌+◌, String, Bool, not, List, [], ◌∷◌, nat_beq, ◌==◌, if◌then◌else◌, contains, all_distinct,
  length, last_of, string_eq, policy_denied, integrity_failure, value_error, Result, ok, err,
  or_default, raise_if, ◌>>=◌, ◌>>◌,
}
use aegis_framework_platform.Base.Dict.{Dict, get, put}
use aegis_framework_platform.Runtime.{Runtime, Json, text, int, object, fields_of}

pub record RegionTopology : Type 0 where
  pub home_region : String
  pub writer_region : String
  pub standby_regions : List String
  pub generation : ℕ

-- `validate_regions`
unfoldable pub validate_regions : RegionTopology → Result (Unit {0})
validate_regions t = do
  raise_if (not (t.writer_region == t.home_region)) value_error
  raise_if (contains t.home_region t.standby_regions) value_error
  raise_if (not (all_distinct t.standby_regions)) value_error

pub record FailoverAuthorization : Type 0 where
  pub source_region : String
  pub target_region : String
  pub expected_generation : ℕ
  pub next_generation : ℕ
  pub approval_ref : String
  pub fence_digest : String

-- `validate_generation`
unfoldable pub validate_generation : FailoverAuthorization → Result (Unit {0})
validate_generation a = do
  raise_if (not (nat_beq a.next_generation (a.expected_generation + 1))) value_error
  raise_if (a.source_region == a.target_region) value_error

pub record ActiveRegion : Type 0 where
  pub region : String
  pub generation : ℕ
  pub previous_home_region : String

unfoldable pub authorize_failover : RegionTopology → FailoverAuthorization → Result ActiveRegion
authorize_failover t a = do
  raise_if (not (nat_beq a.expected_generation t.generation)) policy_denied
  raise_if (not (a.source_region == t.writer_region)) policy_denied
  raise_if (not (contains a.target_region t.standby_regions)) policy_denied
  ok (record {
    region = a.target_region;
    generation = a.next_generation;
    previous_home_region = t.home_region;
  })

pub record RestoreLedgerEvent : Type 0 where
  pub cursor : ℕ
  pub aggregate_id : String
  pub aggregate_sequence : ℕ
  pub aggregate_previous_hash : String
  pub tenant_previous_hash : String
  pub payload_digest : String
  pub record_hash : String

pub record RestoreVerification : Type 0 where
  pub event_count : ℕ
  pub aggregate_count : ℕ
  pub last_cursor : ℕ
  pub last_tenant_hash : String

-- "0" * 64
abbrev pub zero_hash : String
zero_hash = "0000000000000000000000000000000000000000000000000000000000000000"

-- The variables of the loop.
pub record RestoreState : Type 0 where
  pub aggregate_sequences : Dict String ℕ
  pub aggregate_hashes : Dict String String
  pub tenant_hash : String

abbrev pub restore_start : RestoreState
restore_start = record { aggregate_sequences = []; aggregate_hashes = []; tenant_hash = zero_hash }

-- The reads of the `defaultdict`s; the entry that a read adds is written right behind it.
abbrev pub sequence_of : RestoreState → String → ℕ
sequence_of s id = or_default (get id s.aggregate_sequences) 0

abbrev pub hash_of : RestoreState → String → String
hash_of s id = or_default (get id s.aggregate_hashes) zero_hash

abbrev pub restore_step : RestoreState → RestoreLedgerEvent → RestoreState
restore_step s event = record {
  aggregate_sequences = put event.aggregate_id event.aggregate_sequence s.aggregate_sequences;
  aggregate_hashes = put event.aggregate_id event.record_hash s.aggregate_hashes;
  tenant_hash = event.record_hash;
}

module _ (rt : Runtime) where
  unfoldable pub calculated_hash : RestoreLedgerEvent → String
  calculated_hash event = rt.sha256_hex (
      rt.canonical_json (
        object (
          fields_of (
            ("aggregate_id", text event.aggregate_id)
            ∷ ("aggregate_previous_hash", text event.aggregate_previous_hash)
            ∷ ("aggregate_sequence", int event.aggregate_sequence)
            ∷ ("cursor", int event.cursor)
            ∷ ("payload_digest", text event.payload_digest)
            ∷ ("tenant_previous_hash", text event.tenant_previous_hash)
            ∷ []))))

  -- One round of the loop.
  unfoldable pub restore_event : ℕ → RestoreState → RestoreLedgerEvent → Result RestoreState
  restore_event expected_cursor s event = do
    raise_if (not (nat_beq event.cursor expected_cursor)) integrity_failure
    raise_if (not (nat_beq event.aggregate_sequence (sequence_of s event.aggregate_id + 1)))
        integrity_failure
    raise_if (not (event.aggregate_previous_hash == hash_of s event.aggregate_id)) integrity_failure
    raise_if (not (event.tenant_previous_hash == s.tenant_hash)) integrity_failure
    raise_if (not (event.record_hash == calculated_hash event)) integrity_failure
    ok (restore_step s event)

  unfoldable pub restore_events : ℕ → RestoreState → List RestoreLedgerEvent → Result RestoreState
  restore_events expected_cursor s [] = ok s
  restore_events expected_cursor s (event ∷ rest) = do
    next ← restore_event expected_cursor s event
    restore_events (expected_cursor + 1) next rest

  unfoldable pub verify_restored_ledger : List RestoreLedgerEvent → Result RestoreVerification
  unfolding restore_events
  verify_restored_ledger [] = err integrity_failure
  verify_restored_ledger (event ∷ rest) = do
    last ← restore_events 1 restore_start (event ∷ rest)
    ok (record {
      event_count = length (event ∷ rest);
      aggregate_count = length last.aggregate_sequences;
      last_cursor = (last_of event rest).cursor;
      last_tenant_hash = last.tenant_hash;
    })
