-- ===== src/Additive/SequenceTests.antt =====
-- src/mpc/execution.rs with src/example/additive.rs: a round of two inputs, and both rounds of a circuit.
use mpc_core.Prelude.{ℕ, ◌≡◌, refl, some, List, [], ◌∷◌, ok, arith}
use mpc_core.Prelude.Map
use mpc_core.Prelude.Map.{HashMap}
use mpc_core.Prelude.Runs.{◌>>=◌, lift, gets, modify}
use mpc_core.Additive
use mpc_core.Additive.{AdditiveOperation, AdditiveContext, input, add, reveal, share_input}
use mpc_core.Additive.Instance.{additive_scheme-IsFinal}
use mpc_core.Additive.RunTests.{answering, scheme, circuit}
use mpc_core.Execution.{Machine, execution_context, ready_online}
use mpc_core.Execution.Rounds.{do_network_operations, do_rounds}
use mpc_core.Execution.Sequence.{IsFinal}
use mpc_core.Execution.Sequence.Local.{Leaves}
use mpc_core.Execution.Sequence.Rounds.{Exchanges, Does, do_network_operations-each, do_rounds-each}

final : IsFinal scheme
final = additive_scheme-IsFinal 1000 (omega arith) answering 5 (λ k i. 17)

abbrev context : AdditiveContext × ℕ
context = (record { my_id = 0; n_players = 2; user_inputs = (0, 10) ∷ [] }, 0)

abbrev before : Machine scheme
before = record (execution_context scheme circuit (2, 0)) {
  execution_state = ready_online;
  scheme_context = some context;
}

abbrev after : Machine scheme
after = (do_rounds scheme answering circuit.online_rounds (0, 0) before).0

runs : do_rounds scheme answering circuit.online_rounds (0, 0) before ≡ (after, ok (0, 0))
unfolding do_rounds do_network_operations ◌>>=◌ lift gets modify Map.get Map.put
    Additive.do_network_phase Additive.do_finalize_phase
runs = refl

do_rounds-each_example :
    (memory : (AdditiveContext × ℕ) × HashMap ℕ) × Does scheme answering circuit.online_rounds
      (context, [])
      (2, 0)
      (0, 0)
      memory
      after.network
      (0, 0)
    × Leaves scheme memory before after
do_rounds-each_example =
    do_rounds-each scheme final answering circuit.online_rounds (0, 0) before after context (0, 0)
      refl runs

abbrev inputs : List AdditiveOperation
inputs = input 0 0 ∷ input 1 1 ∷ []

abbrev with_inputs : Machine scheme
with_inputs = (do_network_operations scheme answering inputs before).0

network_runs : do_network_operations scheme answering inputs before ≡ (with_inputs, ok (0, 0))
unfolding do_network_operations ◌>>=◌ lift gets modify Map.get Map.put Additive.do_network_phase
    Additive.do_finalize_phase
network_runs = refl

do_network_operations-each_example :
    (memory : (AdditiveContext × ℕ) × HashMap ℕ) × Exchanges scheme answering inputs
      (context, [])
      (2, 0)
      memory
      with_inputs.network
      (0, 0)
    × Leaves scheme memory before with_inputs
do_network_operations-each_example =
    do_network_operations-each scheme final answering inputs before with_inputs context (0, 0) refl
      network_runs
