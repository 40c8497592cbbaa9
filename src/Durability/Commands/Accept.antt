-- ===== src/Durability/Commands/Accept.antt =====
-- `accept_run`: a new run, or the replay of a request that was accepted before.
use aegis_framework_platform.Base.{
  or_raise, String, Bool, true, Option, none, some, List, not, ◌==◌, if◌then◌else◌, string_eq,
  pair_eq, ℕ, idempotency_conflict, key_error, Result, ok, err, Action,
}
use aegis_framework_platform.Base.Dict.{get, put, pop}
use aegis_framework_platform.Runtime.{Runtime}
use aegis_framework_platform.Durability.{Durability, ApplicationEvent, IdempotencyRecord, RunView}
use aegis_framework_platform.Durability.Append.{Batch, append_locked}
use aegis_framework_platform.Durability.Commands.{
  IdentityContext, InvestigationRequest, run_fingerprint, new_run_id, run_batch,
}

abbrev pub as_replayed : RunView → RunView
as_replayed view = record view { replayed = true }

-- `self._runs[key].model_copy(update={"replayed": True})`
unfoldable pub replay_of : Option RunView → Result RunView
replay_of none = err key_error
replay_of (some view) = ok (as_replayed view)

unfoldable pub replay_run : IdempotencyRecord → String → String → Action Durability RunView
unfolding replay_of
replay_run existing tenant_id fingerprint s =
    if not (existing.fingerprint == fingerprint)
    then (err idempotency_conflict, s)
    else (replay_of (get (tenant_id, existing.run_id) s.runs), s)

-- `except Exception: self._idempotency.pop(key, None); raise`
unfoldable pub finish_run :
    String × String
    → String × String
    → Result (List ApplicationEvent) × Durability
    → Result RunView × Durability
unfolding or_raise
finish_run key run_key (err e, s) = (err e, record s { idempotency = pop key s.idempotency })
finish_run key run_key (ok _, s) = (or_raise (get run_key s.runs) key_error, s)

module _ (rt : Runtime) where
  unfoldable pub start_run :
      String × String → String → String → Result Batch → Action Durability RunView
  unfolding finish_run
  start_run key fingerprint run_id (err e) s = (err e, s)
  start_run key fingerprint run_id (ok batch) s =
      finish_run key (key.0, run_id)
        (append_locked rt batch (record s {
          idempotency =
              put key (record { fingerprint = fingerprint; run_id = run_id }) s.idempotency;
        }))

  unfoldable pub accept_known :
      IdentityContext
      → InvestigationRequest
      → Bool
      → ℕ
      → Option IdempotencyRecord
      → Action Durability RunView
  unfolding replay_run start_run
  accept_known identity request wait_for_signal now (some existing) s =
      replay_run existing identity.tenant_id (run_fingerprint rt request wait_for_signal) s
  accept_known identity request wait_for_signal now none s =
      start_run (identity.tenant_id, identity.request_id)
        (run_fingerprint rt request wait_for_signal) (new_run_id rt identity request)
        (run_batch rt identity request wait_for_signal now) s

  unfoldable pub accept_run :
      IdentityContext → InvestigationRequest → Bool → ℕ → Action Durability RunView
  unfolding accept_known
  accept_run identity request wait_for_signal now s =
      accept_known identity request wait_for_signal now
        (get (identity.tenant_id, identity.request_id) s.idempotency) s
