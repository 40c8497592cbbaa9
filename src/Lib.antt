-- ===== src/Lib.antt =====
-- The in-memory cores of the Aegis framework: the durability ledger with its outbox, the remediation
-- ledger with its effect claims, quota and policies, the failover and restore controls, and the
-- quota, the ledger, the trust registry and the circuit breaker for calls of other agents, and the
-- authorization of actions by roles, grants and policies.
--
-- The program takes an investigation request, records it in an append-only ledger with a hash chain
-- for every tenant and every run, and hands a message to the workflow engine through an outbox.
-- Workers report transitions, callers send resume and cancel commands, and the current view of a run
-- is a projection of its events. A remediation plan has a ledger of its own: commands append facts,
-- each chained to the one in front, and an effect is carried out under a claim, within a quota and
-- under a policy. All of it is guarded by locks, so that a method is one step here: a function from
-- the object to what it returns or raises and the object that it leaves (`Action` of Base/Errors).
--
-- Files and code:
--   Runtime             domain.py (stable_id, Identifier, Sha256Digest), telemetry.py
--                       (durable_trace_reference); the parameter `Runtime` stands for hashlib, json,
--                       str and datetime.isoformat, of which nothing is assumed
--   Durability          durability.py: the records, and the attributes of InMemoryDurability
--   Durability/Reduce   reduce_run, _validate_run_transition
--   Durability/Append   append, _append_locked, event_material
--   Durability/Verify   events, verify_integrity, verify_run_integrity, rebuild_run,
--                       rebuild_run_projections, _apply_projection_locked
--   Durability/Commands accept_run, record_transition, accept_signal
--   Durability/Outbox   claim_outbox, complete_outbox, fail_outbox, _update_claim
--   Durability/Cursor   CursorCodec; the parameter `ByteLibrary` stands for hmac, base64 and json
--   Durability/Pages    get_run, delivery, activity_artifact, timeline, replay_legacy
--   Remediation         remediation.py: RemediationFact, RemediationProjection and their types
--   Remediation/Reduce  reduce_remediation, _validate_transition
--   Remediation/Ledger  InMemoryRemediationLedger
--   Remediation/Effects InMemoryEffectClaims, InMemoryEffectQuota, InMemoryActionPolicyStore
--   Production          production.py: RegionTopology, FailoverAuthorization, authorize_failover,
--                       RestoreLedgerEvent, verify_restored_ledger
--   Interoperability    interoperability.py: InvocationQuota
--   Interoperability/Kinds, Documents, Ledger, Trust, Circuit
--                       the enumerations; validate_untrusted_text, _bound_json, _normalize_json,
--                       digest_value and reject_raw_ledger_payload, where the parameter `Unicode`
--                       stands for unicodedata and str.lower; InteroperabilityLedger; TrustEntry and
--                       TrustRegistry; CircuitBreaker
--   Authorization       authorization.py: RoleCatalog, EnterprisePolicy, with the records of access.py,
--                       domain.py and ports.py that they read, whose values are listed as the
--                       validators leave them
-- The paths are below src/aegis_framework. Below Durability, Invariant is the invariant of the ledger,
-- over its hash chains (Chain) and its views (Projection), and Reachable and Deliveries are about the sequences of its calls;
-- Atomic is about calls that raise or are repeated, Lifecycle about the statuses of a run, Schema
-- about events of a later schema version, the children of Outbox about leases, those of Cursor about
-- tokens, and those of Pages about pages of a run's events. Below Remediation,
-- Reduce/Safety is about the statuses of a plan, Ledger/Replay and Ledger/Commands about the ledger,
-- and the children of Effects about claims, quota and policies. Below Production and Interoperability,
-- Failover, Restore and Bounds are about the functions of their parents, Trust/History and
-- Trust/Reviewed about the entries of a peer, Ledger/Chain and Ledger/Repeated about recorded facts, and Circuit/Spec is the specification of the breaker
-- that Circuit/Refines compares it with; Authorization/Granted is about what is allowed. The modules named Tests hold
-- runs on concrete inputs; Runtime/Plain is the runtime that they use.
--
-- Conventions:
--   - identifiers are texts, instants are natural numbers, and a dictionary is a list of its items in
--     the order of insertion; a reading of the clock is an argument (two of accept_signal);
--   - the values that pydantic has validated before a method is entered are taken as valid. Where a
--     method builds a model from other values, the bounds that these can leave are checked here:
--     the sizes of payloads, and the identifiers among the plain texts that append,
--     record_transition, replay_legacy and the two ledgers of facts are given, or that a projection
--     and a page of a run take from a payload. What stable_id makes is taken as an identifier, and
--     what hashlib makes as a digest;
--   - an instant has no time zone: a fact's recorded_at is in UTC, in which its digest is taken;
--   - the order of the keys of a payload is not part of it, since canonical JSON sorts them;
--   - a document's fields that no modelled code reads are left out (the alert of a request is its
--     dumped document, an action intent keeps the digests that bind a claim, and an action policy its
--     tenant, identifier, revision and digest);
--   - the loops are over lists, so that no fuel is needed, but for `decimal`, which has as many rounds
--     as its number, which is more than it has digits, and for `activity_artifact`, which has 21: each
--     of the first twenty passes reads a full page of 500 events of at most 10,000, or leaves; its
--     pages take the lock one by one, and it is modelled with no other call between them;
--   - the readings and the cooldown of the circuit breaker are counted in ticks of its clock.
--
-- Not modelled: run_request and the service class of durability.py, planning and execution of
-- remediation.py, workload identity, the message contracts and the coordinator of
-- interoperability.py, the token validation of identity.py, and
-- the other files: adapters to PostgreSQL, Temporal and model providers, the HTTP and command-line
-- interfaces, and the memory, evidence and sandbox subsystems.
pub mod Base
pub mod Runtime
pub mod Durability
pub mod Remediation
pub mod Production
pub mod Interoperability
pub mod Authorization
