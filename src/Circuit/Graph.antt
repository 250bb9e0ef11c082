-- ===== src/Circuit/Graph.antt =====
-- src/mpc/circuit.rs, `MpcCircuit::new`: the table of wire producers, the adjacency lists and the
-- in-degrees.
pub mod Producers
pub mod Edges
pub mod Correct
use mpc_core.Prelude.{ℕ, suc, ◌+◌, none, some, List, [], ◌∷◌, ◌++◌, get_elem?, set, unwrap}
use mpc_core.Prelude.{Outcome, ok, err, ◌>>=◌, length, replicate}
use mpc_core.Prelude.Map
use mpc_core.Prelude.Map.{HashMap}
use mpc_core.Operation.{WireId, Gates}
use mpc_core.Circuit.{MpcCircuitError, wire_produced_many_times, wire_consumed_but_not_produced}

-- `adj` and `in_degree`
pub record Graph : Type 0 where
  pub adj : List (List ℕ)
  pub in_degree : List ℕ

-- `for out_wire in op.outputs()`
unfoldable pub insert_outputs : ℕ → List WireId → HashMap ℕ → Outcome MpcCircuitError (HashMap ℕ)
insert_outputs idx [] wire_producer = ok wire_producer
insert_outputs idx (out_wire ∷ ws) wire_producer =
    let rest = insert_outputs idx ws (Map.put wire_producer out_wire idx) in
    elim (Map.get wire_producer out_wire) [
      | none ↦ rest
      | some _ ↦ err (wire_produced_many_times out_wire)
    ]

-- `adj[producer_idx].push(consumer_idx); in_degree[consumer_idx] += 1`
unfoldable pub add_edge : ℕ → ℕ → Graph → Outcome MpcCircuitError Graph
add_edge producer_idx consumer_idx g = do
  targets ← unwrap (get_elem? g.adj producer_idx)
  degree ← unwrap (get_elem? g.in_degree consumer_idx)
  ok (record {
    adj = set g.adj producer_idx (targets ++ consumer_idx ∷ []);
    in_degree = set g.in_degree consumer_idx (degree + 1);
  })

-- `for input_wire in op.inputs()`
unfoldable pub connect_inputs : HashMap ℕ → ℕ → List WireId → Graph → Outcome MpcCircuitError Graph
unfolding add_edge
connect_inputs wire_producer consumer_idx [] g = ok g
connect_inputs wire_producer consumer_idx (input_wire ∷ ws) g =
    elim (Map.get wire_producer input_wire) [
      | some producer_idx ↦
          add_edge producer_idx consumer_idx g >>= connect_inputs wire_producer consumer_idx ws
      | none ↦ err (wire_consumed_but_not_produced input_wire)
    ]

module _ (S : Gates) where
  open S use {Operation, inputs, outputs}

  -- `for (idx, op) in raw_ops.iter().enumerate()`, from index `idx` on
  unfoldable pub collect_producers :
      ℕ → List Operation → HashMap ℕ → Outcome MpcCircuitError (HashMap ℕ)
  unfolding insert_outputs
  collect_producers idx [] wire_producer = ok wire_producer
  collect_producers idx (op ∷ ops) wire_producer =
      insert_outputs idx (outputs op) wire_producer >>= collect_producers (suc idx) ops

  -- `for (consumer_idx, op) in raw_ops.iter().enumerate()`, from index `idx` on
  unfoldable pub connect_consumers :
      HashMap ℕ → ℕ → List Operation → Graph → Outcome MpcCircuitError Graph
  unfolding connect_inputs
  connect_consumers wire_producer idx [] g = ok g
  connect_consumers wire_producer idx (op ∷ ops) g =
      connect_inputs wire_producer idx (inputs op) g
      >>= connect_consumers wire_producer (suc idx) ops

  unfoldable pub build_graph : List Operation → Outcome MpcCircuitError Graph
  unfolding collect_producers connect_consumers
  build_graph raw_ops = do
    wire_producer ← collect_producers 0 raw_ops []
    connect_consumers wire_producer 0 raw_ops
        (record { adj = replicate (length raw_ops) []; in_degree = replicate (length raw_ops) 0 })
