-- ===== src/Execution/Whole.antt =====
-- src/mpc/execution.rs with src/mpc/circuit.rs: all the methods in their order, on a circuit that
-- `MpcCircuit::new` has made.
use mpc_core.Prelude.{
  ℕ, ◌≤◌, ◌≡◌, refl, ◌∙◌, sym, ap, subst, Bool, List, [], count, ◌∈◌, arith, Outcome,
}
use mpc_core.Prelude.{ok, some, unwrap, mem-of_count, count-pos_of_mem}
use mpc_core.Prelude.Runs.{◌>>◌, lift}
use mpc_core.Operation.{WireId}
use mpc_core.Network.{Network}
use mpc_core.Scheme.{MpcScheme}
use mpc_core.Circuit.{MpcCircuit, get_input_operation_wire_ids_of_party}
use mpc_core.Circuit.Graph.Producers.{all_outputs}
use mpc_core.Circuit.New.{new}
use mpc_core.Circuit.New.Outcomes.{Compiles}
use mpc_core.Circuit.New.Ready.{IsExecutable, IsUnmixed, after}
use mpc_core.Circuit.New.Correct.{new-Compiles, new-IsExecutable}
use mpc_core.Circuit.New.Inputs.{HaveOneOutput, get_input_operation_wire_ids_lem}
use mpc_core.Execution.{
  Machine, Act, ExecutionContextError, handshaked, finished_offline, ready_online, finished,
}
use mpc_core.Execution.{
  prepare_input_method, do_offline_method, do_online_method, not_enough_inputs,
}
use mpc_core.Execution.{execution_context, assume_init}
use mpc_core.Execution.Methods.{
  handshake, do_offline, prepare_input, do_online, no_error, no_inputs_yet, get_wire,
}
use mpc_core.Execution.Contract.{Safe, Safe-imp, >>=-Safe, IsContract, IsHonest}
use mpc_core.Execution.Complete.{AreLocal}
use mpc_core.Execution.Outputs.{after_count}
use mpc_core.Execution.Stages.{
  Stage, marked, assert_state-Safe, gets-Safe, modify-Safe, set_state-Safe, phase-Safe,
}
use mpc_core.Execution.Stages.{IsExecutable-split, split-AreLocal, rounds_count}
use mpc_core.Execution.Handshake.{handshake-Safe, lift_if-Safe}

no_error_ok :
    {St A : Type 0} (P : St → Type 0) (s : St) (o : Outcome _ A) (a : A)
    → o ≡ ok a
    → P s
    → Safe {E = ExecutionContextError} (λ _ t. P t) (lift (no_error o) s)
unfolding Safe lift
no_error_ok P s o a e p = rw e p

module _ {Net Hash : Type 0} (S : MpcScheme Net) (N : Network Net Hash (S.NetworkElement))
    (digest : MpcCircuit (S.gates.Operation) → Outcome (Unit {0}) Hash)
    (same : Hash → Hash → Bool) where
  open S use {gates, Wire, Input}

  -- The four methods, called in their order.
  unfoldable pub run_all : List (WireId × Input) → Act S (ℕ × ℕ)
  unfolding handshake do_offline prepare_input do_online
  run_all user_inputs = do
    handshake S N digest same
    do_offline S N digest same
    prepare_input S N digest same user_inputs
    do_online S N digest same

  -- The machine at the end: it is finished, and every wire of the operations has a value.
  pub record IsDone (IsValue : Wire → Type 0) (ops : List gates.Operation) (s : Machine S)
      : Type 0 where
    pub state : s.execution_state ≡ finished
    pub values :
        (w : WireId)
        → w ∈ all_outputs gates ops
        → (v : Wire) × (get_wire S N digest same w s ≡ some v) × IsValue v

module _ {Net Hash : Type 0} (S : MpcScheme Net) (N : Network Net Hash (S.NetworkElement))
    (IsValue : S.Wire → Type 0) (IsElement : S.NetworkElement → Type 0)
    (K : IsContract S IsValue IsElement) (H : IsHonest S N IsElement)
    (digest : MpcCircuit (S.gates.Operation) → Outcome (Unit {0}) Hash) (same : Hash → Hash → Bool)
    (digests : (c : MpcCircuit (S.gates.Operation))
      → Safe (λ h t. Unit {0}) (tt {0}, digest c)) where
  open S use {gates, Wire, Input}

  assume_init_lem :
      (P : Machine S → Type 0) (c : S.Context) (s : Machine S)
      → s.scheme_context ≡ some c
      → P s
      → Safe (λ _ t. P t) (assume_init S s)
  unfolding assume_init Safe
  assume_init_lem P c s e p =
      subst (λ o. Safe {E = ExecutionContextError} (λ _ t. P t) (s, unwrap o)) (sym e) p

  module _ (ops : List gates.Operation) (c : MpcCircuit gates.Operation)
      (one : HaveOneOutput gates ops) (unmixed : IsUnmixed gates ops)
      (made : new gates ops ≡ ok c) where
    abbrev off : List gates.Operation
    off = after gates [] c.offline_rounds

    abbrev k : Compiles gates ops c
    k = new-Compiles gates ops c made

    ready : IsExecutable gates [] c.offline_rounds × IsExecutable gates off c.online_rounds
    ready =
        IsExecutable-split gates [] c.offline_rounds c.online_rounds
          (new-IsExecutable gates ops c unmixed made)

    once_online : (w : WireId) → count w (all_outputs gates (after gates off c.online_rounds)) ≤ 1
    once_online w = omega (arith, rounds_count gates ops c w k, k.distinct w)

    once_offline : (w : WireId) → count w (all_outputs gates off) ≤ 1
    once_offline w = omega (arith, once_online w, after_count gates off c.online_rounds w)

    prepare_input-Safe :
        (done : List gates.Operation) (ins : List (WireId × Input)) (s : Machine S)
        → Stage S N IsValue IsElement K H done finished_offline c s
        → Safe
            (λ _ t. Stage S N IsValue IsElement K H done ready_online c t)
            (prepare_input S N digest same ins s)
    unfolding prepare_input lift
    prepare_input-Safe done ins s v =
        let P : Machine S → Type 0 =
          λ t. Stage S N IsValue IsElement K H done finished_offline c t in
        >>=-Safe _ _ _ _ s
          (assert_state-Safe S N IsValue IsElement K H P prepare_input_method finished_offline s
            v.state v)
          λ _ t p.
            >>=-Safe _ _ _ _ t
              (gets-Safe S N IsValue IsElement K H P (λ m. m.circuit) c t p.circuit p)
              λ circuit t (p, e).
                >>=-Safe _ _ _ _ t
                  (gets-Safe S N IsValue IsElement K H P (λ m. m.network) t.network t refl p)
                  λ network t (p, _).
                    let (ws, returns, _) =
                      get_input_operation_wire_ids_lem gates ops c (N.my_id network) one made in
                    let found =
                      ap (λ k. get_input_operation_wire_ids_of_party gates k (N.my_id network)) e
                      ∙ returns in
                    >>=-Safe _ _ _ _ t (no_error_ok P t _ ws found p) λ wires t p.
                      >>=-Safe _ _ _ _ t (marked P t (no_inputs_yet wires) ins p) λ _ t p.
                        >>=-Safe _ _ _ _ t (lift_if-Safe P t p _ not_enough_inputs) λ _ t p.
                          >>=-Safe _ _ _ _ t
                            (assume_init_lem P p.written.context t p.written.ready p)
                            λ context t p.
                              >>=-Safe _ _ _ _ t
                                (modify-Safe S N IsValue IsElement K H P _ t (prepared context t p))
                                λ _ t p.
                                  set_state-Safe S N IsValue IsElement K H
                                    (λ u. Stage S N IsValue IsElement K H done ready_online c u)
                                    ready_online t
                                    (record {
                                      written = record {
                                        context = p.written.context;
                                        ready = p.written.ready;
                                        has = p.written.has;
                                        only = p.written.only;
                                      };
                                      state = refl;
                                      circuit = p.circuit;
                                    })
      where
        prepared :
            (context : S.Context) (t : Machine S)
            → Stage S N IsValue IsElement K H done finished_offline c t
            → Stage S N IsValue IsElement K H done finished_offline c
                (record t { scheme_context = some (S.prepare_user_input context ins) })
        prepared context t p = record {
          written = record {
            context = S.prepare_user_input context ins;
            ready = refl;
            has = p.written.has;
            only = p.written.only;
          };
          state = p.state;
          circuit = p.circuit;
        }

    Stage-IsDone :
        (s : Machine S)
        → Stage S N IsValue IsElement K H (after gates off c.online_rounds) finished c s
        → IsDone S N digest same IsValue ops s
    unfolding get_wire
    Stage-IsDone s v = record {
      state = v.state;
      values = λ w m. v.written.has w (
          mem-of_count w (all_outputs gates (after gates off c.online_rounds)) (
            omega
              (arith, rounds_count gates ops c w k, count-pos_of_mem w (all_outputs gates ops) m)));
    }

    -- On a scheme that keeps its contract and an honest network, the four methods in their order, on a
    -- circuit that `MpcCircuit::new` made of operations where an input has one output and no operation
    -- has both local and network producers, end without a panic; when they succeed, the machine is
    -- finished and every wire of the circuit has a value.
    pub run_all-IsDone :
        (net : Net) (ins : List (WireId × Input))
        → Safe
            (λ _ t. IsDone S N digest same IsValue ops t)
            (run_all S N digest same ins (execution_context S c net))
    unfolding run_all do_offline do_online
    run_all-IsDone net ins =
        >>=-Safe _ _ _ _ (execution_context S c net)
          (handshake-Safe S N IsValue IsElement K H digest same digests c net)
          λ _ t p.
            >>=-Safe _ _ _ _ t
              (phase-Safe S N IsValue IsElement K H (λ d. d.offline_rounds) do_offline_method
                handshaked finished_offline [] c t p ready.0
                (subst (AreLocal S N IsValue IsElement K H) (sym k.offline)
                  (split-AreLocal gates k.offline_waves))
                once_offline)
              λ _ t p. >>=-Safe _ _ _ _ t (prepare_input-Safe off ins t p) λ _ t p.
                Safe-imp _ _ _ (λ _ s v. Stage-IsDone s v)
                  (phase-Safe S N IsValue IsElement K H (λ d. d.online_rounds) do_online_method
                    ready_online finished off c t p ready.1
                    (subst (AreLocal S N IsValue IsElement K H) (sym k.online)
                      (split-AreLocal gates k.online_waves))
                    once_online)
