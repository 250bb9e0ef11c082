-- ===== src/Execution/Tests.antt =====
-- src/mpc/execution.rs: the repository's unit tests of the state machine, on a scheme and a network
-- that do nothing, and uses of the theorems at concrete inputs.
use mpc_core.Prelude.{ℕ, ◌≡◌, refl, true, false, Option, some, List, [], ◌∷◌, ok, err}
use mpc_core.Prelude.{Bool, false}
use mpc_core.Prelude.Map
use mpc_core.Prelude.{◌↔◌}
use mpc_core.Prelude.Map.{HashMap}
use mpc_core.Execution.Inputs.{AreFresh, mark_inputs_lem}
use mpc_core.Prelude.Map.{HashMap}
use mpc_core.Execution.Whole.{run_all}
use mpc_core.Execution.Sequence.{IsFinal}
use mpc_core.Execution.Sequence.Methods.{run_all-Does}
use mpc_core.Execution.Sequence.Shakes.{Shakes}
use mpc_core.Execution.Sequence.Rounds.{Does}
use mpc_core.Execution.Methods.{do_online, mark_inputs}
use mpc_core.Prelude.Runs.{◌>>=◌, lift, gets, modify}
use mpc_core.Operation.{WireId, Gates, is_input}
use mpc_core.Circuit.{MpcCircuit, get_input_operation_wire_ids_of_party}
use mpc_core.Network.{Network}
use mpc_core.Scheme.{MpcScheme}
use mpc_core.Execution.{
  new_born, finished_offline, state_error, not_enough_inputs, duplicate_input, invalid_input_wire,
}
use mpc_core.Execution.{prepare_input_method, do_offline_method, Machine, execution_context}
use mpc_core.Execution.Methods.{handshake, do_offline, prepare_input}
use mpc_core.Execution.Order.{
  Moves, IsInitialised, Call, handshake_call, do_offline_call, do_online_call,
}
use mpc_core.Execution.Order.{
  prepare_input_call, perform, after_calls, perform-Moves, calls-IsInitialised,
}

-- `MockOp::Input(usize, WireId)`
data MockOp : Type 0 where
  mock_input : (party : ℕ) (out : WireId) → MockOp

abbrev party_of : MockOp → Option ℕ
party_of (mock_input party out) = some party

abbrev out_of : MockOp → List WireId
out_of (mock_input party out) = out ∷ []

abbrev mock_gates : Gates
mock_gates = record {
  Operation = MockOp;
  get_input_party_id = party_of;
  inputs = λ op. [];
  outputs = out_of;
  is_circuit_sound = λ ops. true;
  is_operation_local = λ op. false;
}

-- The number of players and the player's id.
abbrev MockNetwork : Type 0
MockNetwork = ℕ × ℕ

abbrev mock_scheme : MpcScheme MockNetwork
mock_scheme = record {
  gates = mock_gates;
  Context = Unit {0};
  NetworkElement = Unit {0};
  Wire = Unit {0};
  Input = Unit {0};
  Pending = Unit {0};
  establish_context = λ net circuit. (net, ok tt);
  prepare_user_input = λ context ins. context;
  do_network_phase = λ context op ins.
      (context, ok (record { pending = tt; send_request = []; receive_request = [] }));
  do_finalize_phase = λ context pending received. (context, ok (tt ∷ []));
}

abbrev mock_network : Network MockNetwork (Unit {0}) (Unit {0})
mock_network = record {
  n_players = λ net. net.0;
  my_id = λ net. net.1;
  broadcast_hash = λ net hash. (net, ok 0);
  recv_hashes = λ net requests. (net, ok ([], 0));
  send_objects_many = λ net requests. (net, ok 0);
  recv_objects_many = λ net requests. (net, ok ([], 0));
}

abbrev mock_circuit : MpcCircuit MockOp
mock_circuit = record {
  offline_rounds = [];
  online_rounds = record { local_operations = []; network_operations = mock_input 0 0 ∷ [] } ∷ [];
}

abbrev fresh : Machine mock_scheme
fresh = execution_context mock_scheme mock_circuit (2, 0)

abbrev do_call :
    Call mock_scheme mock_network (λ c. ok tt) (λ a b. true)
    → Machine mock_scheme
    → Machine mock_scheme
do_call c s = (perform mock_scheme mock_network (λ c. ok tt) (λ a b. true) c s).0

abbrev ready : Machine mock_scheme
ready = do_call do_offline_call (do_call handshake_call fresh)

early_input :
    (perform mock_scheme mock_network (λ c. ok tt) (λ a b. true) (prepare_input_call []) fresh).1
    ≡ err (state_error prepare_input_method new_born)
unfolding perform prepare_input ◌>>=◌
early_input = refl

offline_done : ready.execution_state ≡ finished_offline
unfolding perform ◌>>=◌ lift gets modify do_offline handshake
offline_done = refl

missing_inputs :
    (perform mock_scheme mock_network (λ c. ok tt) (λ a b. true) (prepare_input_call []) ready).1
    ≡ err not_enough_inputs
unfolding perform ◌>>=◌ lift gets modify do_offline handshake prepare_input
    get_input_operation_wire_ids_of_party Map.put is_input
missing_inputs = refl

wrong_wire :
    (perform mock_scheme mock_network
      (λ c. ok tt)
      (λ a b. true)
      (prepare_input_call ((0, tt) ∷ (99, tt) ∷ []))
      ready).1
    ≡ err (invalid_input_wire 99)
unfolding perform ◌>>=◌ lift gets modify do_offline handshake prepare_input
    get_input_operation_wire_ids_of_party Map.put Map.get is_input
wrong_wire = refl

twice :
    (perform mock_scheme mock_network
      (λ c. ok tt)
      (λ a b. true)
      (prepare_input_call ((0, tt) ∷ (0, tt) ∷ []))
      ready).1
    ≡ err (duplicate_input 0)
unfolding perform ◌>>=◌ lift gets modify do_offline handshake prepare_input
    get_input_operation_wire_ids_of_party Map.put Map.get is_input
twice = refl

accepted :
    (perform mock_scheme mock_network
      (λ c. ok tt)
      (λ a b. true)
      (prepare_input_call ((0, tt) ∷ []))
      ready).1
    ≡ ok tt
unfolding perform ◌>>=◌ lift gets modify do_offline handshake prepare_input
    get_input_operation_wire_ids_of_party Map.put Map.get is_input
accepted = refl

perform-Moves_example :
    Moves mock_scheme do_offline_method ready
      (perform mock_scheme mock_network (λ c. ok tt) (λ a b. true) do_offline_call ready)
perform-Moves_example =
    perform-Moves mock_scheme mock_network (λ c. ok tt) (λ a b. true) do_offline_call ready

calls-IsInitialised_example : IsInitialised mock_scheme (
    after_calls mock_scheme mock_network
      (λ c. ok tt)
      (λ a b. true)
      (do_online_call ∷ handshake_call ∷ do_offline_call ∷ [])
      fresh)
calls-IsInitialised_example =
    calls-IsInitialised mock_scheme mock_network (λ c. ok tt) (λ a b. true) mock_circuit (2, 0)
      (do_online_call ∷ handshake_call ∷ do_offline_call ∷ [])

abbrev unmarked : HashMap Bool
unmarked = (0, false) ∷ (3, false) ∷ []

abbrev given : List (WireId × ℕ)
given = (3, 70) ∷ (0, 20) ∷ []

mark_inputs_lem_example :
    ((n : HashMap Bool) × (mark_inputs unmarked given ≡ ok n)) ↔ AreFresh unmarked given
mark_inputs_lem_example = mark_inputs_lem unmarked given

final : IsFinal mock_scheme
final = record {
  finalize = λ pending received. ok (tt ∷ []);
  leaves = λ context pending received. refl;
}

abbrev ended : Machine mock_scheme
ended = (run_all mock_scheme mock_network (λ c. ok tt) (λ a b. true) ((0, tt) ∷ []) fresh).0

all_runs :
    run_all mock_scheme mock_network (λ c. ok tt) (λ a b. true) ((0, tt) ∷ []) fresh
    ≡ (ended, ok (0, 0))
unfolding run_all ◌>>=◌ lift gets modify do_offline handshake prepare_input do_online
    get_input_operation_wire_ids_of_party Map.put Map.get is_input
all_runs = refl

run_all-Does_example :
    (context : Unit {0}) × (shaken : MockNetwork) × (middle : Unit {0} × HashMap (Unit {0}))
    × (between : MockNetwork) × (offline_lens : ℕ × ℕ) × (last : Unit {0} × HashMap (Unit {0}))
    × Shakes mock_scheme mock_network (λ c. ok tt) (λ a b. true) mock_circuit (2, 0) context shaken
    × Does mock_scheme mock_network [] (context, []) shaken (0, 0) middle between offline_lens
    × Does mock_scheme mock_network mock_circuit.online_rounds middle between
        (0, 0)
        last
        ended.network
        (0, 0)
    × (ended.scheme_context ≡ some last.0)
    × (ended.wire_contents ≡ last.1)
run_all-Does_example =
    run_all-Does mock_scheme final mock_network (λ c. ok tt) (λ a b. true) mock_circuit (2, 0)
      ((0, tt) ∷ []) ended (0, 0) all_runs
