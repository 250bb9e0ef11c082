-- ===== src/Circuit/New/Outcomes.antt =====
-- What the ways in which `MpcCircuit::new` can end say of the operations that it is given.
use mpc_core.Prelude.{ℕ, ◌≤◌, ◌<◌, ◌≡◌, true, false, List, [], ◌++◌, count, ◌∈◌, All, concat, map}
use mathlib.Core.List.{Perm}
use mpc_core.Operation.{WireId, Gates, is_input}
use mpc_core.Circuit.{MpcCircuit, MpcCircuitError, circuit_unsound, wire_produced_many_times}
use mpc_core.Circuit.{wire_consumed_but_not_produced, circuit_cyclic, empty_circuit}
use mpc_core.Circuit.{local_input_operation}
use mpc_core.Circuit.Graph.Producers.{all_outputs}
use mpc_core.Circuit.Sort.Trace.{split}
use mpc_core.Circuit.New.Order.{IsOrdered}

module _ (S : Gates) where
  open S use {Operation, inputs, outputs, is_circuit_sound, is_operation_local}

  -- `rank` puts the producers of an operation's inputs below it, so there is no cycle.
  abbrev pub IsRanked : (Operation → ℕ) → List Operation → Type 0
  IsRanked rank ops =
      (p c : Operation) (w : WireId)
      → p ∈ ops
      → c ∈ ops
      → w ∈ outputs p
      → w ∈ inputs c
      → rank p < rank c

  -- What an error says of the operations.
  abbrev pub Cause : List Operation → MpcCircuitError → Type 0
  Cause ops empty_circuit = ops ≡ []
  Cause ops circuit_unsound = is_circuit_sound ops ≡ false
  Cause ops local_input_operation =
      (op : Operation) × op ∈ ops × (is_input S op ≡ true) × (is_operation_local op ≡ true)
  Cause ops (wire_produced_many_times w) = 1 < count w (all_outputs S ops)
  Cause ops (wire_consumed_but_not_produced w) =
      ((op : Operation) × op ∈ ops × w ∈ inputs op) × ¬ (w ∈ all_outputs S ops)
  Cause ops circuit_cyclic = (rank : Operation → ℕ) → ¬ IsRanked rank ops

  -- What a circuit says of the operations that it is made of.
  pub record Compiles (ops : List Operation) (c : MpcCircuit Operation) : Type 0 where
    pub offline_waves : List (List Operation)
    pub online_waves : List (List Operation)
    pub offline : c.offline_rounds ≡ map (split S) offline_waves
    pub online : c.online_rounds ≡ map (split S) online_waves
    pub ordered : IsOrdered S [] (concat offline_waves ++ concat online_waves)
    pub same : Perm (concat offline_waves ++ concat online_waves) ops
    pub covers : (op : Operation) → op ∈ ops → op ∈ concat offline_waves ++ concat online_waves
    pub within : (op : Operation) → op ∈ concat offline_waves ++ concat online_waves → op ∈ ops
    pub no_input : All (All (λ op. is_input S op ≡ false)) offline_waves
    pub distinct : (w : WireId) → count w (all_outputs S ops) ≤ 1
    pub sound : is_circuit_sound ops ≡ true
    pub inputs_remote :
        (op : Operation) → op ∈ ops → is_input S op ≡ true → is_operation_local op ≡ false
