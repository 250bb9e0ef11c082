-- ===== src/Scheme.antt =====
-- src/mpc/scheme.rs: the trait `MpcScheme` for a network of type `Net`. A scheme supplies the
-- functions; one that changes the context gives the context that it leaves, also on failure. The
-- messages of failures are left out.
use mpc_core.Prelude.{List, Outcome}
use mpc_core.Operation.{WireId, Gates}
use mpc_core.Circuit.{MpcCircuit}
use mpc_core.Network.{SendRequest, ReceiveRequest}

pub record NetworkPhaseOutput (Pending NetworkElement : Type 0) : Type 0 where
  pub pending : Pending
  pub send_request : List (SendRequest NetworkElement)
  pub receive_request : List ReceiveRequest

pub record MpcScheme (Net : Type 0) : Type 1 where
  pub gates : Gates
  pub Context : Type 0
  pub NetworkElement : Type 0
  pub Wire : Type 0
  pub Input : Type 0
  pub Pending : Type 0
  pub establish_context : Net → MpcCircuit (gates.Operation) → Net × Outcome (Unit {0}) Context
  pub prepare_user_input : Context → List (WireId × Input) → Context
  pub do_network_phase :
      Context
      → gates.Operation
      → List Wire
      → Context × Outcome (Unit {0}) (NetworkPhaseOutput Pending NetworkElement)
  pub do_finalize_phase :
      Context → Pending → List NetworkElement → Context × Outcome (Unit {0}) (List Wire)
