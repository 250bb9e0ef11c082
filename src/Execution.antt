-- ===== src/Execution.antt =====
-- src/mpc/execution.rs: the data of `ExecutionContext`, a state machine over a scheme and a network,
-- and the steps of its methods. Each step gives the context that it leaves, on errors too.
pub mod Rounds
pub mod Methods
pub mod Contract
pub mod Wires
pub mod Outputs
pub mod Operations
pub mod Complete
pub mod Stages
pub mod Handshake
pub mod Whole
pub mod Keeps
pub mod Order
pub mod Inputs
pub mod Prepare
pub mod Sequence
pub mod Tests
use mpc_core.Prelude.{
  ℕ, zero, suc, Bool, true, false, Option, none, some, List, [], ◌∷◌, ◌++◌, length,
}
use mpc_core.Prelude.{if◌then◌else◌, Outcome, ok, err, panic, out_of_fuel, unwrap}
use mpc_core.Prelude.Map
use mpc_core.Prelude.Map.{HashMap}
use mpc_core.Prelude.Runs.{Run, ◌>>=◌, ◌>>◌, lift, gets, modify}
use mpc_core.Operation.{WireId}
use mpc_core.Circuit.{MpcCircuit}
use mpc_core.Network.{Network}
use mpc_core.Scheme.{MpcScheme}

pub data ExecutionState : Type 0 where
  new_born handshaked finished_offline ready_online finished : ExecutionState

-- The name that a `StateError` carries.
pub data Method : Type 0 where
  handshake_method do_offline_method prepare_input_method do_online_method : Method

-- The errors that the code returns; the message of a `SchemeError` is left out.
pub data ExecutionContextError : Type 0 where
  state_error : Method → ExecutionState → ExecutionContextError
  plan_not_agreed : ExecutionContextError
  duplicate_input : WireId → ExecutionContextError
  invalid_input_wire : WireId → ExecutionContextError
  not_enough_inputs : ExecutionContextError
  scheme_error : ExecutionContextError

abbrev pub same_state : ExecutionState → ExecutionState → Bool
same_state new_born new_born = true
same_state handshaked handshaked = true
same_state finished_offline finished_offline = true
same_state ready_online ready_online = true
same_state finished finished = true
same_state _ _ = false

-- `map_err(|e| SchemeError { … })`
abbrev pub scheme_failure : {A : Type 0} → Outcome (Unit {0}) A → Outcome ExecutionContextError A
scheme_failure (ok a) = ok a
scheme_failure (err _) = err scheme_error
scheme_failure panic = panic
scheme_failure out_of_fuel = out_of_fuel

-- `scheme_context` is `none` while uninitialised.
pub record ExecutionContext (Op Net Wire Context : Type 0) : Type 0 where
  pub circuit : MpcCircuit Op
  pub execution_state : ExecutionState
  pub network : Net
  pub wire_contents : HashMap Wire
  pub scheme_context : Option Context

module _ {Net : Type 0} (S : MpcScheme Net) where
  open S use {gates, Wire, Context}

  abbrev pub Machine : Type 0
  Machine = ExecutionContext gates.Operation Net Wire Context

  abbrev pub Act : Type 0 → Type 0
  Act A = Run Machine ExecutionContextError A

  abbrev pub execution_context : MpcCircuit gates.Operation → Net → Machine
  execution_context circuit network = record {
    circuit = circuit;
    execution_state = new_born;
    network = network;
    wire_contents = [];
    scheme_context = none;
  }

  -- `assert_state!`
  unfoldable pub assert_state : Method → ExecutionState → Act (Unit {0})
  assert_state method expected s =
      if same_state s.execution_state expected
      then (s, ok tt)
      else (s, err (state_error method s.execution_state))

  -- `assume_init_mut` is undefined on an uninitialised context; the model panics there.
  unfoldable pub assume_init : Act Context
  assume_init s = (s, unwrap s.scheme_context)

  -- A call of the scheme, which may change its context.
  unfoldable pub call_scheme : {A : Type 0} → (Context → Context × Outcome (Unit {0}) A) → Act A
  unfolding assume_init
  call_scheme f = do
    context ← assume_init
    modify (λ s. record s { scheme_context = some (f context).0 })
    lift (scheme_failure (f context).1)

  -- A call of the network, which may change it.
  unfoldable pub call_network : {A : Type 0} → (Net → Net × Outcome (Unit {0}) A) → Act A
  call_network f = do
    network ← gets (λ s. s.network)
    modify (λ s. record s { network = (f network).0 })
    lift (scheme_failure (f network).1)

  unfoldable pub set_state : ExecutionState → Act (Unit {0})
  set_state next = modify (λ s. record s { execution_state = next })
