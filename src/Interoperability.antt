-- ===== src/Interoperability.antt =====
-- interoperability.py: `InvocationQuota`, the bound on a tenant's calls of other agents.
pub mod Bounds
pub mod Kinds
pub mod Ledger
pub mod Documents
pub mod Trust
pub mod Circuit
mod Tests
use aegis_framework_platform.Base.{
  ℕ, ◌+◌, String, Bool, not, ◌||◌, List, [], ◌∷◌, Option, none, some, ltb, nat_beq, ◌==◌,
  if◌then◌else◌, string_eq, nat_eq, pair_eq, value_error, policy_denied, idempotency_conflict,
  Result, ok, err, or_default, Action,
}
use aegis_framework_platform.Base.Dict.{Dict, get, put}

pub record InvocationQuota : Type 0 where
  pub request_limit : ℕ
  pub cost_limit : ℕ
  pub usage : Dict String (ℕ × ℕ)
  pub reservations : Dict String (String × ℕ)

-- The attributes of a new object.
abbrev pub new_quota : ℕ → ℕ → InvocationQuota
new_quota request_limit cost_limit = record {
  request_limit = request_limit;
  cost_limit = cost_limit;
  usage = [];
  reservations = [];
}

-- `InvocationQuota(request_limit=..., cost_limit=...)`; a natural cost limit is never negative
unfoldable pub make_quota : ℕ → ℕ → Result InvocationQuota
make_quota request_limit cost_limit =
    if ltb request_limit 1 then err value_error else ok (new_quota request_limit cost_limit)

-- `self._usage.get(tenant_ref, (0, 0))`, which is also the method `usage`
abbrev pub usage_of : InvocationQuota → String → ℕ × ℕ
usage_of s tenant_ref = or_default (get tenant_ref s.usage) (0, 0)

-- The branch for a new reservation.
unfoldable pub reserve_units : String → String → ℕ → Action InvocationQuota (Unit {0})
reserve_units tenant_ref reservation_id cost_units s =
    let (requests, cost) = usage_of s tenant_ref in
    if ltb s.request_limit (requests + 1) || ltb s.cost_limit (cost + cost_units)
    then (err policy_denied, s)
    else (
      ok tt,
      record s {
        usage = put tenant_ref (requests + 1, cost + cost_units) s.usage;
        reservations = put reservation_id (tenant_ref, cost_units) s.reservations;
      },
    )

unfoldable pub reserve_known :
    String → String → ℕ → Option (String × ℕ) → Action InvocationQuota (Unit {0})
unfolding reserve_units
reserve_known tenant_ref reservation_id cost_units none s =
    reserve_units tenant_ref reservation_id cost_units s
reserve_known tenant_ref reservation_id cost_units (some existing) s =
    if not (existing == (tenant_ref, cost_units)) then (err idempotency_conflict, s) else (ok tt, s)

-- A natural number is never negative, so that the first guard of `reserve` never raises.
unfoldable pub reserve_invocation : String → String → ℕ → Action InvocationQuota (Unit {0})
unfolding reserve_known
reserve_invocation tenant_ref reservation_id cost_units s =
    reserve_known tenant_ref reservation_id cost_units (get reservation_id s.reservations) s
