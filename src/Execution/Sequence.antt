-- ===== src/Execution/Sequence.antt =====
-- src/mpc/execution.rs: the operations done one after the other, on a context and the contents of the
-- wires alone, which the rounds of the executor are compared with.
pub mod Steps
pub mod Batches
pub mod Local
pub mod Rounds
pub mod Same
pub mod Shakes
pub mod Methods
use mpc_core.Prelude.{ℕ, ◌≡◌, Bool, true, false, Option, none, some, List, [], ◌∷◌, length}
use mpc_core.Prelude.{
  Outcome, ok, err, panic, out_of_fuel, ◌>>=◌, unwrap, is_some, if◌then◌else◌, take, drop, concat,
}
use mpc_core.Prelude.Map
use mpc_core.Prelude.Map.{HashMap}
use mpc_core.Operation.{WireId}
use mpc_core.Network.{ReceiveRequest}
use mpc_core.Scheme.{MpcScheme}
use mpc_core.Execution.Rounds.{Output}

module _ {E Wire : Type 0} where
  -- The contents of the input wires.
  unfoldable pub read : HashMap Wire → List WireId → Outcome E (List Wire)
  read wires [] = ok []
  read wires (id ∷ ids) =
      unwrap (Map.get wires id) >>= λ wire. read wires ids >>= λ others. ok (wire ∷ others)

  -- The outputs, each on a wire that has no contents.
  unfoldable pub write : HashMap Wire → List WireId → List Wire → Outcome E (HashMap Wire)
  write wires [] [] = ok wires
  write wires (id ∷ ids) (wire ∷ others) =
      let rest = write (Map.put wires id wire) ids others in
      if is_some (Map.get wires id) then panic else rest
  write wires [] (wire ∷ others) = panic
  write wires (id ∷ ids) [] = panic

module _ {Net : Type 0} (S : MpcScheme Net) where
  open S use {gates, Wire, Context, NetworkElement, Pending}

  -- The final phase looks at its arguments alone, and leaves the context.
  pub record IsFinal : Type 0 where
    pub finalize : Pending → List NetworkElement → Outcome (Unit {0}) (List Wire)
    pub leaves :
        (context : Context) (pending : Pending) (received : List NetworkElement)
        → S.do_finalize_phase context pending received ≡ (context, finalize pending received)

  -- Both phases of an operation, on what it receives.
  unfoldable pub one :
      gates.Operation
      → List NetworkElement
      → Context × HashMap Wire
      → Outcome (Unit {0}) (Context × HashMap Wire)
  unfolding read write
  one op received (context, wires) = read wires (gates.inputs op) >>= λ ins.
      let begun = S.do_network_phase context op ins in
      begun.1 >>= λ out.
      let ended = S.do_finalize_phase begun.0 out.pending received in
      ended.1 >>= λ output. write wires (gates.outputs op) output >>= λ wires. ok (ended.0, wires)

  -- One operation after the other.
  unfoldable pub each :
      List (gates.Operation × List NetworkElement)
      → Context × HashMap Wire
      → Outcome (Unit {0}) (Context × HashMap Wire)
  unfolding one
  each [] memory = ok memory
  each ((op, received) ∷ rest) memory = one op received memory >>= each rest

  -- What each operation receives: as many batches as it asked for.
  abbrev pub slices :
      List (gates.Operation × Output S)
      → List (List NetworkElement)
      → List (gates.Operation × List NetworkElement)
  slices [] batches = []
  slices ((op, out) ∷ outs) batches =
      (op, concat (take (length out.receive_request) batches))
      ∷ slices outs (drop (length out.receive_request) batches)
