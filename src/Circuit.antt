-- ===== src/Circuit.antt =====
-- src/mpc/circuit.rs: the data of a compiled circuit, the errors of its construction and its
-- accessors. The scheme value that `MpcCircuit` carries is the section's parameter.
pub mod Graph
pub mod Sort
pub mod New
pub mod Tests
use mpc_core.Prelude.{ℕ, ◌+◌, Bool, Option, none, some, List, [], ◌∷◌, ◌++◌, length, Outcome, ok}
use mpc_core.Prelude.{panic, ◌>>=◌, ◌==◌, if◌then◌else◌, unwrap, concat, map, keep}
use mpc_core.Operation.{WireId, Gates}

pub record Round (Op : Type 0) : Type 0 where
  pub local_operations : List Op
  pub network_operations : List Op

pub record MpcCircuit (Op : Type 0) : Type 0 where
  pub offline_rounds : List (Round Op)
  pub online_rounds : List (Round Op)

pub data MpcCircuitError : Type 0 where
  circuit_unsound : MpcCircuitError
  wire_produced_many_times : WireId → MpcCircuitError
  wire_consumed_but_not_produced : WireId → MpcCircuitError
  circuit_cyclic : MpcCircuitError
  empty_circuit : MpcCircuitError
  local_input_operation : MpcCircuitError

module _ {Op : Type 0} where
  unfoldable pub num_total_rounds : MpcCircuit Op → ℕ
  num_total_rounds c = length c.offline_rounds + length c.online_rounds

  unfoldable pub num_offline_rounds : MpcCircuit Op → ℕ
  num_offline_rounds c = length c.offline_rounds

  unfoldable pub num_online_rounds : MpcCircuit Op → ℕ
  num_online_rounds c = length c.online_rounds

-- `id == Some(party_id)`
abbrev pub is_party : Option ℕ → ℕ → Bool
is_party none p = Bool.false
is_party (some q) p = q == p

module _ (S : Gates) where
  open S use {Operation, get_input_party_id, outputs}

  -- `.map(|op| op.outputs().next().expect("Expected one output"))`
  unfoldable pub first_outputs : List Operation → Outcome MpcCircuitError (List WireId)
  first_outputs [] = ok []
  first_outputs (op ∷ ops) =
      let rest = first_outputs ops in
      elim (outputs op) [ [] ↦ panic | w ∷ _ ↦ (do ws ← rest; ok (w ∷ ws)) ]

  unfoldable pub get_input_operation_wire_ids_of_party :
      MpcCircuit Operation → ℕ → Outcome MpcCircuitError (List WireId)
  unfolding first_outputs
  get_input_operation_wire_ids_of_party c party_id = first_outputs (
      keep (λ op. is_party (get_input_party_id op) party_id)
        (concat (map (λ r. r.network_operations) c.online_rounds)))
