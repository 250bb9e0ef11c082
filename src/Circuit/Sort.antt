-- ===== src/Circuit/Sort.antt =====
-- src/mpc/circuit.rs, `MpcCircuit::new`: the closure `process_wave`, Kahn's algorithm in waves.
-- Its loops take fuel; `New` gives one more than the number of operations.
pub mod Pending
pub mod Invariant
pub mod Steps
pub mod Loops
pub mod Trace
use mpc_core.Prelude.{ℕ, zero, suc, Bool, ◌&&◌, Option, none, some, List, [], ◌∷◌}
use mpc_core.Prelude.{◌++◌, get_elem?, set, unwrap, Outcome, ok, panic, out_of_fuel, ◌>>=◌}
use mpc_core.Prelude.{◌==◌, if◌then◌else◌}
use mpc_core.Operation.{Gates, is_input}
use mpc_core.Circuit.{Round, MpcCircuitError}

-- The variables that the closure captures, and those of the current round. `ops` holds `none` where
-- an operation is taken, and `online_wave` collects what the offline phase puts off.
pub record State (Op : Type 0) : Type 0 where
  pub ops : List (Option Op)
  pub in_degree : List ℕ
  pub wave : List ℕ
  pub next_wave : List ℕ
  pub online_wave : List ℕ
  pub local_operations : List Op
  pub network_operations : List Op

module _ (S : Gates) where
  open S use {Operation, is_operation_local}

  -- `if in_degree[consumer_idx] == 0 { … push_back(consumer_idx) }`
  unfoldable pub enqueue : Bool → ℕ → ℕ → State Operation → State Operation
  enqueue op_local degree consumer_idx s =
      if degree == 0
      then (if op_local
          then record s { wave = s.wave ++ consumer_idx ∷ [] }
          else record s { next_wave = s.next_wave ++ consumer_idx ∷ [] })
      else s

  -- `for &consumer_idx in &adj[op_idx]`. The subtraction `in_degree[consumer_idx] -= 1` is checked.
  unfoldable pub release :
      Bool → List ℕ → State Operation → Outcome MpcCircuitError (State Operation)
  unfolding enqueue
  release op_local [] s = ok s
  release op_local (consumer_idx ∷ cs) s = elim (get_elem? s.in_degree consumer_idx) [
    | none ↦ panic
    | some zero ↦ panic
    | some (suc degree) ↦ release op_local cs (
        enqueue op_local degree consumer_idx
          (record s { in_degree = set s.in_degree consumer_idx degree }))
  ]

  -- `ops[op_idx].take()`, and the push of the operation to one of the lists of its round
  unfoldable pub schedule : ℕ → Operation → State Operation → State Operation
  schedule op_idx op s =
      if is_operation_local op
      then record s {
        ops = set s.ops op_idx none;
        local_operations = s.local_operations ++ op ∷ [];
      }
      else record s {
        ops = set s.ops op_idx none;
        network_operations = s.network_operations ++ op ∷ [];
      }

  module _ (adj : List (List ℕ)) (defer : Bool) where
    -- What the inner loop does with `op_idx`, popped from the wave and holding `op`. `defer` says that
    -- there is a `target_online_wave`.
    unfoldable pub visit :
        ℕ → Operation → State Operation → Outcome MpcCircuitError (State Operation)
    unfolding release schedule is_input
    visit op_idx op s =
        if defer && is_input S op
        then ok (record s { online_wave = s.online_wave ++ op_idx ∷ [] })
        else (do
          consumers ← unwrap (get_elem? adj op_idx)
          release (is_operation_local op) consumers (schedule op_idx op s))

    -- `ops[op_idx].as_ref().unwrap()` panics on an operation that is taken.
    unfoldable pub pop :
        ℕ → Option (Option Operation) → State Operation → Outcome MpcCircuitError (State Operation)
    unfolding visit
    pop op_idx (some (some op)) s = visit op_idx op s
    pop op_idx (some none) s = panic
    pop op_idx none s = panic

    unfoldable pub drain_step :
        (State Operation → Outcome MpcCircuitError (State Operation))
        → List ℕ
        → State Operation
        → Outcome MpcCircuitError (State Operation)
    unfolding pop
    drain_step again [] s = ok s
    drain_step again (op_idx ∷ wave) s =
        pop op_idx (get_elem? s.ops op_idx) (record s { wave = wave }) >>= again

    -- `while let Some(op_idx) = wave.pop_front()`
    unfoldable pub drain : ℕ → State Operation → Outcome MpcCircuitError (State Operation)
    unfolding drain_step
    drain zero s = drain_step (λ _. out_of_fuel) s.wave s
    drain (suc fuel) s = drain_step (drain fuel) s.wave s

    -- The fresh `next_wave`, `local_operations` and `network_operations` of a round.
    unfoldable pub begin_round : State Operation → State Operation
    begin_round s = record s { next_wave = []; local_operations = []; network_operations = [] }

    -- `rounds.push(Round { … })`, and the swap of `wave` and `next_wave`
    unfoldable pub end_round :
        State Operation → List (Round Operation) → State Operation × List (Round Operation)
    end_round s rounds = (
      record s { wave = s.next_wave; next_wave = [] },
      rounds
          ++ record {
            local_operations = s.local_operations;
            network_operations = s.network_operations;
          }
            ∷ [],
    )

    unfoldable pub wave_step :
        (State Operation × List (Round Operation)
          → Outcome MpcCircuitError (State Operation × List (Round Operation)))
        → ℕ
        → List ℕ
        → State Operation
        → List (Round Operation)
        → Outcome MpcCircuitError (State Operation × List (Round Operation))
    unfolding drain begin_round end_round
    wave_step again fuel [] s rounds = ok (s, rounds)
    wave_step again fuel (op_idx ∷ wave) s rounds = do
      s' ← drain fuel (begin_round s)
      again (end_round s' rounds)

    -- `while !wave.is_empty()`; the second fuel is that of each inner loop.
    unfoldable pub process_wave :
        ℕ
        → ℕ
        → State Operation × List (Round Operation)
        → Outcome MpcCircuitError (State Operation × List (Round Operation))
    unfolding wave_step
    process_wave zero fuel (s, rounds) = wave_step (λ _. out_of_fuel) fuel s.wave s rounds
    process_wave (suc outer) fuel (s, rounds) =
        wave_step (process_wave outer fuel) fuel s.wave s rounds
