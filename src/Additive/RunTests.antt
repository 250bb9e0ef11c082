-- ===== src/Additive/RunTests.antt =====
-- src/mpc/execution.rs with src/example/additive.rs: a run of the additive scheme, and uses of the
-- theorems on whole runs at concrete inputs.
use mpc_core.Prelude.{
  Outcome, ℕ, zero, suc, ◌<◌, ◌≡◌, refl, List, [], ◌∷◌, ◌++◌, length, concat, All, ok, arith, ◌==◌,
}
use mpc_core.Prelude.Map
use mpc_core.Network.{Network, ReceiveRequest, Matches, expected}
use mpc_core.Scheme.{MpcScheme}
use mpc_core.Circuit.{MpcCircuit}
use mpc_core.Circuit.New.{new}
use mpc_core.Circuit.New.Ready.{IsUnmixed}
use mpc_core.Circuit.New.Inputs.{HaveOneOutput}
use mpc_core.Additive.{AdditiveOperation, input, add, reveal}
use mpc_core.Additive.Sound.{is_circuit_sound}
use mpc_core.Additive.Instance.{additive_gates, additive_scheme, additive_scheme-IsContract}
use mpc_core.Prelude.{some, ◌↔◌}
use mpc_core.Additive.{establish_context}
use mpc_core.Execution.{execution_context, Machine, finished_offline}
use mpc_core.Execution.Methods.{prepare_input}
use mpc_core.Execution.Prepare.Answers.{
  prepared, AreInputsOf, IsExplained, prepare_input_lem, prepare_input-IsExplained,
}
use mpc_core.Execution.Contract.{Safe, IsContract, IsHonest}
use mpc_core.Execution.Whole.{run_all, run_all-IsDone, IsDone}

abbrev ops : List AdditiveOperation
ops = input 0 0 ∷ input 1 1 ∷ add 0 1 2 ∷ reveal 2 3 ∷ []

abbrev pub circuit : MpcCircuit AdditiveOperation
circuit = record {
  offline_rounds = record { local_operations = []; network_operations = [] } ∷ [];
  online_rounds =
      record { local_operations = []; network_operations = input 0 0 ∷ input 1 1 ∷ [] }
      ∷ record { local_operations = add 0 1 2 ∷ []; network_operations = reveal 2 3 ∷ [] }
      ∷ [];
}

made : new (additive_gates 1000 5) ops ≡ ok circuit
unfolding new Map.get Map.put is_circuit_sound
made = refl

unmixed : IsUnmixed (additive_gates 1000 5) ops
unmixed c p q v w mc mp mq vi wi vo wo = ground arith

one_output : HaveOneOutput (additive_gates 1000 5) ops
one_output (input p w) m i = (w, refl)
one_output (AdditiveOperation.gen_random w) m i = (w, refl)
one_output (add l r w) m i = (w, refl)
one_output (reveal v w) m i = (w, refl)

abbrev copies : {T : Type 0} → T → ℕ → List T
copies x zero = []
copies x (suc n) = x ∷ copies x n

-- The same object, as often as each request expects it.
abbrev replies : {T : Type 0} → T → List ReceiveRequest → List (List T)
replies x [] = []
replies x (r ∷ rs) = copies x (expected r.count) ∷ replies x rs

-- Two players; the other one answers every request.
abbrev pub answering : Network (ℕ × ℕ) ℕ ℕ
answering = record {
  n_players = λ net. net.0;
  my_id = λ net. net.1;
  broadcast_hash = λ net hash. (net, ok 0);
  recv_hashes = λ net requests. (net, ok (replies 7 requests, 0));
  send_objects_many = λ net requests. (net, ok 0);
  recv_objects_many = λ net requests. (net, ok (replies 5 requests, 0));
}

length-copies : {T : Type 0} (x : T) (n : ℕ) → length (copies x n) ≡ n
length-copies x zero = refl
length-copies x (suc n) = omega (arith, length-copies x n)

replies-Matches : {T : Type 0} (x : T) (rs : List ReceiveRequest) → Matches rs (replies x rs)
replies-Matches x [] = tt
replies-Matches x (r ∷ rs) = (length-copies x (expected r.count), replies-Matches x rs)

copies-All : (n : ℕ) (xs : List ℕ) → All (λ v. v < 1000) xs → All (λ v. v < 1000) (copies 5 n ++ xs)
copies-All zero xs h = h
copies-All (suc n) xs h = (omega arith, copies-All n xs h)

replies-All : (rs : List ReceiveRequest) → All (λ v. v < 1000) (concat (replies 5 rs))
replies-All [] = tt
replies-All (r ∷ rs) = copies-All (expected r.count) _ (replies-All rs)

abbrev pub scheme : MpcScheme (ℕ × ℕ)
scheme = additive_scheme 1000 (omega arith) answering 5 (λ k i. 17)

honest : IsHonest scheme answering (λ v. v < 1000)
unfolding Safe
honest = record {
  broadcasts = λ net hash. tt;
  receives_hashes = λ net rs. replies-Matches 7 rs;
  sends = λ net rs. tt;
  receives = λ net rs. (replies-Matches 5 rs, replies-All rs);
}

contract : IsContract scheme (λ v. v < 1000) (λ v. v < 1000)
contract =
    additive_scheme-IsContract 1000 (omega arith) (omega arith) answering 5 (λ k i. 17)
      (λ k i. omega arith)

abbrev digest : MpcCircuit AdditiveOperation → Outcome (Unit {0}) ℕ
digest c = ok 7

digests : (c : MpcCircuit AdditiveOperation) → Safe (λ h t. Unit {0}) (tt {0}, digest c)
unfolding Safe
digests c = tt

run_all-IsDone_example :
    Safe
      (λ _ t. IsDone scheme answering digest ◌==◌ (λ v. v < 1000) ops t)
      (run_all scheme answering digest ◌==◌
        ((0, 10) ∷ [])
        (execution_context scheme circuit (2, 0)))
run_all-IsDone_example =
    run_all-IsDone scheme answering (λ v. v < 1000) (λ v. v < 1000) contract honest digest ◌==◌
      digests ops circuit one_output unmixed made (2, 0) ((0, 10) ∷ [])

additive_scheme-IsContract_example :
    IsContract
      (additive_scheme 1000 (omega arith) answering 5 (λ k i. 17))
      (λ v. v < 1000)
      (λ v. v < 1000)
additive_scheme-IsContract_example =
    additive_scheme-IsContract 1000 (omega arith) (omega arith) answering 5 (λ k i. 17)
      (λ k i. omega arith)

-- A machine after the offline phase.
abbrev prepared_for : Machine scheme
prepared_for = record (execution_context scheme circuit (2, 0)) {
  execution_state = finished_offline;
  scheme_context = some (establish_context 0 2, 0);
}

prepare_input_lem_example :
    (prepare_input scheme answering digest ◌==◌ ((0, 10) ∷ []) prepared_for ≡ (
      prepared scheme answering digest ◌==◌ ops
          (establish_context 0 2, 0)
          ((0, 10) ∷ [])
          prepared_for,
      ok tt,
    ))
    ↔ AreInputsOf scheme answering digest ◌==◌ ops 0 ((0, 10) ∷ [])
prepare_input_lem_example =
    prepare_input_lem scheme answering digest ◌==◌ ops circuit (establish_context 0 2, 0)
      ((0, 10) ∷ []) prepared_for one_output made refl refl refl

prepare_input-IsExplained_example :
    IsExplained scheme answering digest ◌==◌ ops
      (establish_context 0 2, 0)
      ((1, 10) ∷ [])
      prepared_for
      (prepare_input scheme answering digest ◌==◌ ((1, 10) ∷ []) prepared_for)
prepare_input-IsExplained_example =
    prepare_input-IsExplained scheme answering digest ◌==◌ ops circuit (establish_context 0 2, 0)
      ((1, 10) ∷ []) prepared_for one_output made refl refl refl
