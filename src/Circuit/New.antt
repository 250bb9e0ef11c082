-- ===== src/Circuit/New.antt =====
-- src/mpc/circuit.rs, `MpcCircuit::new`, put together.
pub mod Start
pub mod Order
pub mod Outcomes
pub mod Ready
pub mod Cycles
pub mod Correct
pub mod Inputs
use mpc_core.Prelude.{ℕ, zero, suc, Bool, true, false, not, ◌&&◌, ◌||◌, Option, some, List, [], ◌∷◌}
use mpc_core.Prelude.{length, map, is_some, Outcome, ok, assert, fail_if, ◌>>=◌, ◌>>◌}
use mpc_core.Operation.{Gates, is_input}
use mpc_core.Circuit.{Round, MpcCircuit, MpcCircuitError, circuit_unsound, circuit_cyclic}
use mpc_core.Circuit.{empty_circuit, local_input_operation}
use mpc_core.Circuit.Graph.{Graph, build_graph}
use mpc_core.Circuit.Sort.{State, process_wave}

-- `.iter().any(…)`
abbrev pub any : {A : Type 0} → (A → Bool) → List A → Bool
any p [] = false
any p (x ∷ xs) = p x || any p xs

-- `in_degree.iter().enumerate().filter_map(…)`, from index `idx` on
unfoldable pub zero_degree : ℕ → List ℕ → List ℕ
zero_degree idx [] = []
zero_degree idx (zero ∷ ds) = idx ∷ zero_degree (suc idx) ds
zero_degree idx (suc d ∷ ds) = zero_degree (suc idx) ds

module _ (S : Gates) where
  open S use {Operation, is_circuit_sound, is_operation_local}

  -- The variables at the start of the offline phase.
  unfoldable pub start : List Operation → Graph → State Operation
  unfolding zero_degree
  start raw_ops g = record {
    ops = map some raw_ops;
    in_degree = g.in_degree;
    wave = zero_degree 0 g.in_degree;
    next_wave = [];
    online_wave = [];
    local_operations = [];
    network_operations = [];
  }

  -- `process_wave(&mut online_wave, …)`: the operations put off are the first online wave.
  unfoldable pub go_online : State Operation → State Operation
  go_online s = record s { wave = s.online_wave; online_wave = [] }

  -- The two phases.
  unfoldable pub sort :
      List Operation
      → Graph
      → Outcome MpcCircuitError (List (Option Operation) × MpcCircuit Operation)
  unfolding start go_online process_wave
  sort raw_ops g = do
    let fuel = suc (length raw_ops)
    (s, offline_rounds) ← process_wave S g.adj true fuel fuel (start raw_ops g, [])
    (t, online_rounds) ← process_wave S g.adj false fuel fuel (go_online s, [])
    ok (t.ops, record { offline_rounds = offline_rounds; online_rounds = online_rounds })

  -- The operand of the `debug_assert!`, negated.
  unfoldable pub has_input : Round Operation → Bool
  unfolding is_input
  has_input r = any (is_input S) r.network_operations || any (is_input S) r.local_operations

  unfoldable pub finish :
      List (Option Operation) × MpcCircuit Operation
      → Outcome MpcCircuitError (MpcCircuit Operation)
  unfolding has_input
  finish (ops, circuit) = do
    fail_if (any is_some ops) circuit_cyclic
    assert (not (any has_input circuit.offline_rounds))
    ok circuit

  -- The guards at the head of `new`.
  unfoldable pub check : List Operation → Outcome MpcCircuitError (Unit {0})
  unfolding is_input
  check [] = fail_if true empty_circuit
  check (op ∷ ops) = do
    fail_if (not (is_circuit_sound (op ∷ ops))) circuit_unsound
    fail_if (any (λ o. is_input S o && is_operation_local o) (op ∷ ops)) local_input_operation

  unfoldable pub new : List Operation → Outcome MpcCircuitError (MpcCircuit Operation)
  unfolding check build_graph sort finish
  new raw_ops = do check raw_ops; g ← build_graph S raw_ops; sorted ← sort raw_ops g; finish sorted
