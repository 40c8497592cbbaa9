-- ===== src/Interoperability/Circuit/Spec.antt =====
-- What a `CircuitBreaker` is to be: for each peer, a circuit that is closed and counts failures, or
-- open since an instant.
use aegis_framework_platform.Base.{
  ℕ, ◌+◌, ◌-◌, String, Bool, true, false, List, [], ◌∷◌, ltb, leb, ◌==◌, if◌then◌else◌, string_eq,
}

pub data Circuit : Type 0 where
  closed : ℕ → Circuit
  open_since : ℕ → Circuit

abbrev pub Circuits : Type 0
Circuits = String → Circuit

abbrev pub all_closed : Circuits
all_closed peer_id = closed 0

abbrev pub update : String → Circuit → Circuits → Circuits
update peer_id circuit circuits j = if peer_id == j then circuit else circuits j

pub data Call : Type 0 where
  asks : String → ℕ → Call
  reports : String → Bool → ℕ → Call

module _ (failure_threshold cooldown : ℕ) where
  -- A closed circuit lets calls through, and an open one lets the next one try after the cooldown.
  unfoldable pub try : ℕ → Circuit → Bool × Circuit
  try now (closed n) = (true, closed n)
  try now (open_since t) =
      if leb (t + cooldown) now
      then (true, closed (failure_threshold - 1))
      else (false, open_since t)

  -- A success closes the circuit. A failure counts, and opens it at the threshold.
  unfoldable pub settle : Bool → ℕ → Circuit → Circuit
  settle true now circuit = closed 0
  settle false now (closed n) =
      if ltb (n + 1) failure_threshold then closed (n + 1) else open_since now
  settle false now (open_since t) = open_since t

  -- The answers to a sequence of calls.
  unfoldable pub answers : Circuits → List Call → List Bool
  answers circuits [] = []
  answers circuits (asks peer_id now ∷ rest) =
      (try now (circuits peer_id)).0
      ∷ answers (update peer_id (try now (circuits peer_id)).1 circuits) rest
  answers circuits (reports peer_id success now ∷ rest) =
      answers (update peer_id (settle success now (circuits peer_id)) circuits) rest
