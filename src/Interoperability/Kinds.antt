-- ===== src/Interoperability/Kinds.antt =====
-- interoperability.py: the enumerations of the protocols, of trust, and of what is exchanged.
use aegis_framework_platform.Base.{ℕ, zero, suc, String, ◌≡◌, refl, Eq, enum_eq}

pub data ProtocolKind : Type 0 where
  mcp a2a : ProtocolKind

pub data TransportKind : Type 0 where
  stdio streamable_http json_rpc_http grpc : TransportKind

pub data TrustTier : Type 0 where
  internal partner restricted : TrustTier

pub data TrustStatus : Type 0 where
  pending_review active quarantined revoked expired emergency_disabled : TrustStatus

pub data DataClassification : Type 0 where
  public internal confidential restricted : DataClassification

pub data RiskLevel : Type 0 where
  low medium high : RiskLevel

-- The places of the members, and the members at the places.
abbrev protocol_place : ProtocolKind → ℕ
protocol_place mcp = 0
protocol_place a2a = 1

abbrev protocol_at : ℕ → ProtocolKind
protocol_at zero = mcp
protocol_at (suc _) = a2a

pub protocol_at-place : (p : ProtocolKind) → protocol_at (protocol_place p) ≡ p
protocol_at-place mcp = refl
protocol_at-place a2a = refl

instance abbrev pub protocol_eq : Eq ProtocolKind
protocol_eq = enum_eq protocol_place protocol_at protocol_at-place

abbrev status_place : TrustStatus → ℕ
status_place pending_review = 0
status_place active = 1
status_place quarantined = 2
status_place revoked = 3
status_place expired = 4
status_place emergency_disabled = 5

abbrev status_at : ℕ → TrustStatus
status_at zero = pending_review
status_at (suc zero) = active
status_at (suc (suc zero)) = quarantined
status_at (suc (suc (suc zero))) = revoked
status_at (suc (suc (suc (suc zero)))) = expired
status_at (suc (suc (suc (suc (suc _))))) = emergency_disabled

pub status_at-place : (t : TrustStatus) → status_at (status_place t) ≡ t
status_at-place pending_review = refl
status_at-place active = refl
status_at-place quarantined = refl
status_at-place revoked = refl
status_at-place expired = refl
status_at-place emergency_disabled = refl

instance abbrev pub status_eq : Eq TrustStatus
status_eq = enum_eq status_place status_at status_at-place

abbrev class_place : DataClassification → ℕ
class_place DataClassification.public = 0
class_place DataClassification.internal = 1
class_place DataClassification.confidential = 2
class_place DataClassification.restricted = 3

abbrev class_at : ℕ → DataClassification
class_at zero = DataClassification.public
class_at (suc zero) = DataClassification.internal
class_at (suc (suc zero)) = DataClassification.confidential
class_at (suc (suc (suc _))) = DataClassification.restricted

pub class_at-place : (c : DataClassification) → class_at (class_place c) ≡ c
class_at-place DataClassification.public = refl
class_at-place DataClassification.internal = refl
class_at-place DataClassification.confidential = refl
class_at-place DataClassification.restricted = refl

instance abbrev pub class_eq : Eq DataClassification
class_eq = enum_eq class_place class_at class_at-place

abbrev risk_place : RiskLevel → ℕ
risk_place low = 0
risk_place medium = 1
risk_place high = 2

abbrev risk_at : ℕ → RiskLevel
risk_at zero = low
risk_at (suc zero) = medium
risk_at (suc (suc _)) = high

pub risk_at-place : (r : RiskLevel) → risk_at (risk_place r) ≡ r
risk_at-place low = refl
risk_at-place medium = refl
risk_at-place high = refl

instance abbrev pub risk_eq : Eq RiskLevel
risk_eq = enum_eq risk_place risk_at risk_at-place

pub data InvocationState : Type 0 where
  requested claimed succeeded failed ambiguous cancelled reconciled quarantined : InvocationState

pub data InteroperabilityFactType : Type 0 where
  trust_registered trust_reviewed trust_quarantined trust_revoked : InteroperabilityFactType
  invocation_requested invocation_claimed invocation_succeeded : InteroperabilityFactType
  invocation_failed invocation_ambiguous invocation_reconciled : InteroperabilityFactType
  task_cancel_requested task_cancelled : InteroperabilityFactType
  artifact_accepted artifact_quarantined proposal_submitted : InteroperabilityFactType

-- `fact_type.value`
unfoldable pub fact_type_text : InteroperabilityFactType → String
fact_type_text trust_registered = "interop.trust_registered"
fact_type_text trust_reviewed = "interop.trust_reviewed"
fact_type_text trust_quarantined = "interop.trust_quarantined"
fact_type_text trust_revoked = "interop.trust_revoked"
fact_type_text invocation_requested = "interop.invocation_requested"
fact_type_text invocation_claimed = "interop.invocation_claimed"
fact_type_text invocation_succeeded = "interop.invocation_succeeded"
fact_type_text invocation_failed = "interop.invocation_failed"
fact_type_text invocation_ambiguous = "interop.invocation_ambiguous"
fact_type_text invocation_reconciled = "interop.invocation_reconciled"
fact_type_text task_cancel_requested = "interop.task_cancel_requested"
fact_type_text task_cancelled = "interop.task_cancelled"
fact_type_text artifact_accepted = "interop.artifact_accepted"
fact_type_text artifact_quarantined = "interop.artifact_quarantined"
fact_type_text proposal_submitted = "interop.proposal_submitted"
