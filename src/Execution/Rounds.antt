-- ===== src/Execution/Rounds.antt =====
-- src/mpc/execution.rs: `do_local_operations` and `do_network_operations`, and the rounds of a phase.
use mpc_core.Prelude.{ℕ, ◌+◌, List, [], ◌∷◌, ◌++◌, length}
use mpc_core.Prelude.{if◌then◌else◌, Outcome, ok, panic, unwrap, is_some, take, drop, concat}
use mpc_core.Prelude.Map
use mpc_core.Prelude.Map.{HashMap}
use mpc_core.Prelude.Runs.{◌>>=◌, ◌>>◌, lift, gets, modify}
use mpc_core.Operation.{WireId}
use mpc_core.Circuit.{Round}
use mpc_core.Network.{Network, SendRequest, ReceiveRequest}
use mpc_core.Scheme.{MpcScheme, NetworkPhaseOutput}
use mpc_core.Execution.{ExecutionContextError, Act, assume_init, call_scheme, call_network}

-- `assert!(requests.is_empty())`
abbrev pub assert_empty : {A : Type 0} → List A → Outcome ExecutionContextError (Unit {0})
assert_empty [] = ok tt
assert_empty (_ ∷ _) = panic

module _ {Net : Type 0} (S : MpcScheme Net) where
  open S use {gates, Wire, Context, NetworkElement, Pending, do_network_phase, do_finalize_phase}

  -- `.map(|id| wire_contents.get(&id).expect("Expected a wire content"))`
  unfoldable pub read_wires : List WireId → Act S (List Wire)
  read_wires [] = lift (ok [])
  read_wires (id ∷ ids) = do
    wire_contents ← gets (λ s. s.wire_contents)
    wire ← lift (unwrap (Map.get wire_contents id))
    wires ← read_wires ids
    lift (ok (wire ∷ wires))

  -- The loop over `zip_eq(op.outputs(), output)`, which panics when the lengths differ.
  unfoldable pub write_wires : List WireId → List Wire → Act S (Unit {0})
  write_wires [] [] = lift (ok tt)
  write_wires (id ∷ ids) (wire ∷ wires) = do
    prev ← gets (λ s. Map.get s.wire_contents id)
    modify (λ s. record s { wire_contents = Map.put s.wire_contents id wire })
    lift (if is_some prev then panic else ok tt)
    write_wires ids wires
  write_wires _ _ = lift panic

  abbrev pub Output : Type 0
  Output = NetworkPhaseOutput Pending NetworkElement

  -- The network phase of an operation, on the contents of its input wires.
  unfoldable pub begin_operation : gates.Operation → Act S Output
  unfolding read_wires call_scheme
  begin_operation op = do
    inputs ← read_wires (gates.inputs op)
    call_scheme S (λ context. do_network_phase context op inputs)

  unfoldable pub do_local_operation : gates.Operation → Act S (Unit {0})
  unfolding begin_operation call_scheme write_wires
  do_local_operation op = do
    out ← begin_operation op
    lift (assert_empty out.send_request)
    lift (assert_empty out.receive_request)
    output ← call_scheme S (λ context. do_finalize_phase context out.pending [])
    write_wires (gates.outputs op) output

  unfoldable pub do_local_operations : List gates.Operation → Act S (Unit {0})
  unfolding do_local_operation
  do_local_operations [] = lift (ok tt)
  do_local_operations (op ∷ ops) = do_local_operation op >> do_local_operations ops

  -- The first loop of `do_network_operations`: each operation with what its network phase gave.
  unfoldable pub begin_operations : List gates.Operation → Act S (List (gates.Operation × Output))
  unfolding begin_operation
  begin_operations [] = lift (ok [])
  begin_operations (op ∷ ops) = do
    out ← begin_operation op
    outs ← begin_operations ops
    lift (ok ((op, out) ∷ outs))

  -- The second loop: each operation takes as many batches as it asked for.
  unfoldable pub finalize_operations :
      List (gates.Operation × Output)
      → List (List NetworkElement)
      → Act S (List (gates.Operation × List Wire))
  unfolding call_scheme
  finalize_operations [] batches = lift (ok [])
  finalize_operations ((op, out) ∷ outs) batches = do
    let count = length out.receive_request
    output ←
        call_scheme S λ context. do_finalize_phase context out.pending (concat (take count batches))
    results ← finalize_operations outs (drop count batches)
    lift (ok ((op, output) ∷ results))

  -- The third loop.
  unfoldable pub write_results : List (gates.Operation × List Wire) → Act S (Unit {0})
  unfolding write_wires
  write_results [] = lift (ok tt)
  write_results ((op, output) ∷ results) =
      write_wires (gates.outputs op) output >> write_results results

  abbrev pub all_send_requests : List (gates.Operation × Output) → List (SendRequest NetworkElement)
  all_send_requests [] = []
  all_send_requests ((op, out) ∷ outs) = out.send_request ++ all_send_requests outs

  abbrev pub all_receive_requests : List (gates.Operation × Output) → List ReceiveRequest
  all_receive_requests [] = []
  all_receive_requests ((op, out) ∷ outs) = out.receive_request ++ all_receive_requests outs

  module _ {Hash : Type 0} (N : Network Net Hash NetworkElement) where
    open N use {send_objects_many, recv_objects_many}

    unfoldable pub do_network_operations : List gates.Operation → Act S (ℕ × ℕ)
    unfolding begin_operations call_network finalize_operations write_results
    do_network_operations ops = do
      outs ← begin_operations ops
      send_len ← call_network S (λ net. send_objects_many net (all_send_requests outs))
      received ← call_network S (λ net. recv_objects_many net (all_receive_requests outs))
      results ← finalize_operations outs received.0
      write_results results
      lift (ok (send_len, received.1))

    -- The loop over the rounds of a phase, from the lengths so far.
    unfoldable pub do_rounds : List (Round gates.Operation) → ℕ × ℕ → Act S (ℕ × ℕ)
    unfolding assume_init do_local_operations do_network_operations
    do_rounds [] totals = lift (ok totals)
    do_rounds (round ∷ rounds) totals = do
      assume_init S
      do_local_operations round.local_operations
      lens ← do_network_operations round.network_operations
      do_rounds rounds (totals.0 + lens.0, totals.1 + lens.1)
