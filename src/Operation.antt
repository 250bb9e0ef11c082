-- ===== src/Operation.antt =====
-- src/mpc/scheme.rs: the trait `Operation`, and the part of the trait `MpcScheme` that the circuit
-- builder calls. A scheme supplies the functions; the builder is generic over them.
use mpc_core.Prelude.{ℕ, Bool, Option, List, is_some}

-- `WireId(usize)`
abbrev pub WireId : Type 0
WireId = ℕ

pub record Gates : Type 1 where
  pub Operation : Type 0
  pub get_input_party_id : Operation → Option ℕ
  pub inputs : Operation → List WireId
  pub outputs : Operation → List WireId
  pub is_circuit_sound : List Operation → Bool
  pub is_operation_local : Operation → Bool

-- The provided method `Operation::is_input`.
unfoldable pub is_input : (S : Gates) → S.Operation → Bool
is_input S op = is_some (S.get_input_party_id op)
