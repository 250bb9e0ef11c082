-- ===== src/Circuit/Tests.antt =====
-- The unit tests of src/mpc/circuit.rs, and the witnesses of the theorems on circuits.
use mpc_core.Prelude.{ℕ, ◌≡◌, refl, Bool, true, false, Option, none, some, List, [], ◌∷◌, ok, err}
use mpc_core.Prelude.Map
use mpc_core.Operation.{WireId, Gates}
use mpc_core.Circuit.{MpcCircuit, circuit_cyclic, wire_produced_many_times}
use mpc_core.Circuit.{wire_consumed_but_not_produced, empty_circuit}
use mpc_core.Prelude.{◌∈◌, ◌↔◌, ◌++◌, inl, inr, arith, Returns}
use mpc_core.Operation.{is_input}
use mpc_core.Circuit.{get_input_operation_wire_ids_of_party}
use mpc_core.Circuit.New.{new}
use mpc_core.Circuit.New.Outcomes.{Cause, Compiles}
use mpc_core.Circuit.New.Ready.{IsUnmixed, IsExecutable}
use mpc_core.Circuit.New.Correct.{new-Returns, new-Cause, new-Compiles, new-IsExecutable}
use mpc_core.Circuit.New.Inputs.{HaveOneOutput, IsInputOf, get_input_operation_wire_ids_lem}

-- `MockOp` of the tests.
data MockOp : Type 0 where
  input : ℕ → WireId → MockOp
  local network : List WireId → WireId → MockOp

abbrev mock_party : MockOp → Option ℕ
mock_party (input p w) = some p
mock_party _ = none

abbrev mock_inputs : MockOp → List WireId
mock_inputs (input p w) = []
mock_inputs (local ins w) = ins
mock_inputs (network ins w) = ins

abbrev mock_outputs : MockOp → List WireId
mock_outputs (input p w) = w ∷ []
mock_outputs (local ins w) = w ∷ []
mock_outputs (network ins w) = w ∷ []

abbrev mock_local : MockOp → Bool
mock_local (local ins w) = true
mock_local _ = false

abbrev mock : Gates
mock = record {
  Operation = MockOp;
  get_input_party_id = mock_party;
  inputs = mock_inputs;
  outputs = mock_outputs;
  is_circuit_sound = λ ops. true;
  is_operation_local = mock_local;
}

abbrev mixed_ops : List MockOp
mixed_ops =
    local [] 0
    ∷ local [] 1
    ∷ network (0 ∷ 1 ∷ []) 2
    ∷ input 0 3
    ∷ local (3 ∷ []) 4
    ∷ network (2 ∷ 4 ∷ []) 5
    ∷ []

abbrev mixed_circuit : MpcCircuit MockOp
mixed_circuit = record {
  offline_rounds =
      record {
        local_operations = local [] 0 ∷ local [] 1 ∷ [];
        network_operations = network (0 ∷ 1 ∷ []) 2 ∷ [];
      }
      ∷ [];
  online_rounds =
      record { local_operations = []; network_operations = input 0 3 ∷ [] }
      ∷ record {
        local_operations = local (3 ∷ []) 4 ∷ [];
        network_operations = network (2 ∷ 4 ∷ []) 5 ∷ [];
      }
      ∷ [];
}

offline_and_online_rounds : new mock mixed_ops ≡ ok mixed_circuit
unfolding new Map.get Map.put
offline_and_online_rounds = refl

no_operations : new mock [] ≡ err empty_circuit
unfolding new Map.get Map.put
no_operations = refl

produced_twice : new mock (local [] 1 ∷ local [] 1 ∷ []) ≡ err (wire_produced_many_times 1)
unfolding new Map.get Map.put
produced_twice = refl

dangling : new mock (local (99 ∷ []) 1 ∷ []) ≡ err (wire_consumed_but_not_produced 99)
unfolding new Map.get Map.put
dangling = refl

cyclic : new mock (local (2 ∷ []) 1 ∷ local (1 ∷ []) 2 ∷ []) ≡ err circuit_cyclic
unfolding new Map.get Map.put
cyclic = refl

-- The third operation needs the network operation's output and stands before it.
early_consumer :
    new mock (network [] 0 ∷ local [] 1 ∷ local (0 ∷ 1 ∷ []) 2 ∷ [])
    ≡ ok (record {
      offline_rounds =
          record {
            local_operations = local [] 1 ∷ local (0 ∷ 1 ∷ []) 2 ∷ [];
            network_operations = network [] 0 ∷ [];
          }
          ∷ [];
      online_rounds = [];
    })
unfolding new Map.get Map.put
early_consumer = refl

new-Returns_example : Returns (new mock mixed_ops)
new-Returns_example = new-Returns mock mixed_ops

new-Cause_example : Cause mock (local (2 ∷ []) 1 ∷ local (1 ∷ []) 2 ∷ []) circuit_cyclic
new-Cause_example = new-Cause mock (local (2 ∷ []) 1 ∷ local (1 ∷ []) 2 ∷ []) circuit_cyclic cyclic

new-Compiles_example : Compiles mock mixed_ops mixed_circuit
new-Compiles_example = new-Compiles mock mixed_ops mixed_circuit offline_and_online_rounds

-- One input, and a local operation on it.
abbrev plain_ops : List MockOp
plain_ops = input 0 7 ∷ local (7 ∷ []) 8 ∷ []

abbrev plain_circuit : MpcCircuit MockOp
plain_circuit = record {
  offline_rounds = record { local_operations = []; network_operations = [] } ∷ [];
  online_rounds =
      record { local_operations = []; network_operations = input 0 7 ∷ [] }
      ∷ record { local_operations = local (7 ∷ []) 8 ∷ []; network_operations = [] }
      ∷ [];
}

plain_rounds : new mock plain_ops ≡ ok plain_circuit
unfolding new Map.get Map.put
plain_rounds = refl

plain-IsUnmixed : IsUnmixed mock plain_ops
plain-IsUnmixed c p q v w mc mp mq vi wi vo wo = ground arith

new-IsExecutable_example :
    IsExecutable mock [] (plain_circuit.offline_rounds ++ plain_circuit.online_rounds)
new-IsExecutable_example =
    new-IsExecutable mock plain_ops plain_circuit plain-IsUnmixed plain_rounds

plain-HaveOneOutput : HaveOneOutput mock plain_ops
unfolding is_input
plain-HaveOneOutput op (inl e) i = (7, rw e refl)
plain-HaveOneOutput op (inr (inl e)) i = cc (rw e at i)
plain-HaveOneOutput op (inr (inr h)) i = absurd h

get_input_operation_wire_ids_lem_example :
    (ws : List WireId) × (get_input_operation_wire_ids_of_party mock plain_circuit 0 ≡ ok ws)
    × ((w : WireId) → (w ∈ ws) ↔ IsInputOf mock plain_ops 0 w)
get_input_operation_wire_ids_lem_example =
    get_input_operation_wire_ids_lem mock plain_ops plain_circuit 0 plain-HaveOneOutput plain_rounds
