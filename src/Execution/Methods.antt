-- ===== src/Execution/Methods.antt =====
-- src/mpc/execution.rs: the public methods of `ExecutionContext`. The digest of the circuit is
-- `postcard` and SHA-3, a parameter like the comparison of two digests.
use mpc_core.Prelude.{ℕ, zero, suc, Bool, true, false, Option, none, some, List, [], ◌∷◌, length}
use mpc_core.Prelude.{
  if◌then◌else◌, Outcome, ok, err, panic, out_of_fuel, not, ltb, ◌==◌, keep, map,
}
use mpc_core.Prelude.Map
use mpc_core.Prelude.Map.{HashMap}
use mpc_core.Prelude.Runs.{◌>>=◌, ◌>>◌, lift, gets, modify}
use mpc_core.Operation.{WireId}
use mpc_core.Circuit.{MpcCircuit, get_input_operation_wire_ids_of_party, MpcCircuitError}
use mpc_core.Network.{Network, receive_request}
use mpc_core.Scheme.{MpcScheme}
use mpc_core.Execution.{new_born, handshaked, finished_offline, ready_online, finished}
use mpc_core.Execution.{handshake_method, do_offline_method, prepare_input_method, do_online_method}
use mpc_core.Execution.{ExecutionContextError, plan_not_agreed, duplicate_input, invalid_input_wire}
use mpc_core.Execution.{not_enough_inputs, scheme_failure, Machine, Act, assert_state, assume_init}
use mpc_core.Execution.{call_network, set_state}
use mpc_core.Execution.Rounds.{do_rounds}

-- `(0..n)`, from `i` on
abbrev pub range_from : ℕ → ℕ → List ℕ
range_from i zero = []
range_from i (suc n) = i ∷ range_from (suc i) n

-- `hashes.into_iter().any(…)`; an empty batch fails its `unwrap`.
unfoldable pub some_differs :
    {Hash : Type 0}
    → (Hash → Hash → Bool)
    → Hash
    → List (List Hash)
    → Outcome ExecutionContextError Bool
some_differs same hash [] = ok false
some_differs same hash ([] ∷ batches) = panic
some_differs same hash ((h ∷ hs) ∷ batches) =
    let rest = some_differs same hash batches in if same h hash then rest else ok true

-- `.map(|x| (x, false)).collect()` into a map
unfoldable pub no_inputs_yet : List WireId → HashMap Bool
no_inputs_yet [] = []
no_inputs_yet (w ∷ ws) = Map.put (no_inputs_yet ws) w false

-- The loop over the user's inputs: it marks the wire of each.
unfoldable pub mark_inputs :
    {Input : Type 0}
    → HashMap Bool
    → List (WireId × Input)
    → Outcome ExecutionContextError (HashMap Bool)
mark_inputs input_wires [] = ok input_wires
mark_inputs input_wires ((wire_id, value) ∷ rest) =
    let marked = mark_inputs (Map.put input_wires wire_id true) rest in
    elim (Map.get input_wires wire_id) [
      | some false ↦ marked
      | some true ↦ err (duplicate_input wire_id)
      | none ↦ err (invalid_input_wire wire_id)
    ]

-- A circuit's accessor has no errors of its own.
abbrev pub no_error : {A : Type 0} → Outcome MpcCircuitError A → Outcome ExecutionContextError A
no_error (ok a) = ok a
no_error (err _) = panic
no_error panic = panic
no_error out_of_fuel = out_of_fuel

module _ {Net Hash : Type 0} (S : MpcScheme Net) (N : Network Net Hash (S.NetworkElement))
    (digest : MpcCircuit (S.gates.Operation) → Outcome (Unit {0}) Hash)
    (same : Hash → Hash → Bool) where
  open S use {gates, Wire, Context, Input, establish_context, prepare_user_input}
  open N use {n_players, my_id, broadcast_hash, recv_hashes}

  unfoldable pub handshake : Act S (ℕ × ℕ)
  unfolding assert_state call_network set_state some_differs
  handshake = do
    assert_state S handshake_method new_born
    circuit ← gets (λ s. s.circuit)
    hash ← lift (scheme_failure (digest circuit))
    send_len ← call_network S (λ net. broadcast_hash net hash)
    network ← gets (λ s. s.network)
    let players = keep (λ from. not (from == my_id network)) (range_from 0 (n_players network))
    received ← call_network S λ net. recv_hashes net (map (λ from. receive_request from 1) players)
    differs ← lift (some_differs same hash received.0)
    lift (if differs then err plan_not_agreed else ok tt)
    context ← call_network S (λ net. establish_context net circuit)
    modify (λ s. record s { scheme_context = some context })
    set_state S handshaked
    lift (ok (send_len, received.1))

  unfoldable pub do_offline : Act S (ℕ × ℕ)
  unfolding assert_state do_rounds set_state
  do_offline = do
    assert_state S do_offline_method handshaked
    circuit ← gets (λ s. s.circuit)
    totals ← do_rounds S N circuit.offline_rounds (0, 0)
    set_state S finished_offline
    lift (ok totals)

  unfoldable pub prepare_input : List (WireId × Input) → Act S (Unit {0})
  unfolding assert_state no_inputs_yet mark_inputs assume_init set_state
  prepare_input user_inputs = do
    assert_state S prepare_input_method finished_offline
    circuit ← gets (λ s. s.circuit)
    network ← gets (λ s. s.network)
    wires ← lift (no_error (get_input_operation_wire_ids_of_party gates circuit (my_id network)))
    let input_wires = no_inputs_yet wires
    marked ← lift (mark_inputs input_wires user_inputs)
    lift (if ltb (length user_inputs) (length input_wires) then err not_enough_inputs else ok tt)
    context ← assume_init S
    modify (λ s. record s { scheme_context = some (prepare_user_input context user_inputs) })
    set_state S ready_online

  unfoldable pub do_online : Act S (ℕ × ℕ)
  unfolding assert_state do_rounds set_state
  do_online = do
    assert_state S do_online_method ready_online
    circuit ← gets (λ s. s.circuit)
    totals ← do_rounds S N circuit.online_rounds (0, 0)
    set_state S finished
    lift (ok totals)

  unfoldable pub get_wire : WireId → Machine S → Option Wire
  get_wire id s = Map.get s.wire_contents id
