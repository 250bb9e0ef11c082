-- ===== src/Additive/Instance.antt =====
-- src/example/additive.rs: the scheme as the executor takes it, with the generator a table of drawn
-- values, a row for every call of the network phase.
use mpc_core.Prelude.{
  ℕ, suc, ◌+◌, ◌%◌, ◌^◌, ◌≤◌, ◌<◌, ◌≡◌, refl, ◌∙◌, ap, subst, List, [], ◌∷◌, length, concat, map,
  All,
}
use mpc_core.Prelude.{
  Bool, true, false, some, none, Outcome, ok, err, panic, out_of_fuel, Bool-cases, inl, inr, arith,
  ◌==◌, length-append,
}
use mpc_core.Prelude.Map
use mpc_core.Prelude.Map.{HashMap}
use mpc_core.Operation.{WireId, Gates}
use mpc_core.Network.{Network, ReceiveRequest, receive_request, Matches, expected}
use mpc_core.Scheme.{MpcScheme}
use mpc_core.Additive
use mpc_core.Additive.{
  AdditiveOperation, input, gen_random, add, reveal, AdditiveContext, AdditivePending, PhaseOutput,
  rem, insert_inputs, others, phase_output, input_pending, gen_random_pending, add_pending,
}
use mpc_core.Additive.Sound
use mpc_core.Additive.Sharing.{rem_ok, gen_range_ok, add_mod_ok}
use mpc_core.Additive.Phases.{phases_lem, share_input_ok, sent}
use mpc_core.Additive.{establish_context}
use mpc_core.Execution.Contract.{Safe, IsContract}
use mpc_core.Execution.Sequence.{IsFinal}

-- What the check answers. The builder asks for a Boolean, so that operations on which the loop of the check
-- does not end, where the code never returns, count as refused here.
abbrev accepts : Outcome ⊥ Bool → Bool
accepts (ok b) = b
accepts (err e) = false
accepts panic = false
accepts out_of_fuel = false

-- `fuel` bounds the check of the circuit.
abbrev pub additive_gates : ℕ → ℕ → Gates
additive_gates m fuel = record {
  Operation = AdditiveOperation;
  get_input_party_id = Additive.get_input_party_id;
  inputs = Additive.inputs;
  outputs = Additive.outputs;
  is_circuit_sound = λ ops. accepts (Additive.Sound.is_circuit_sound m fuel ops);
  is_operation_local = Additive.is_operation_local;
}

-- The context, with the number of the next row.
abbrev pub Drawing : Type 0
Drawing = AdditiveContext × ℕ

abbrev pub begun :
    Drawing → Outcome ⊥ (AdditiveContext × PhaseOutput) → Drawing × Outcome (Unit {0}) PhaseOutput
begun (c, k) (ok (d, out)) = ((d, suc k), ok out)
begun (c, k) (err e) = absurd e
begun (c, k) panic = ((c, suc k), panic)
begun (c, k) out_of_fuel = ((c, suc k), out_of_fuel)

abbrev pub ended : Drawing → Outcome ⊥ (List ℕ) → Drawing × Outcome (Unit {0}) (List ℕ)
ended s (ok out) = (s, ok out)
ended s (err e) = absurd e
ended s panic = (s, panic)
ended s out_of_fuel = (s, out_of_fuel)

ended_final : (s d : Drawing) (o : Outcome ⊥ (List ℕ)) → ended s o ≡ (s, (ended d o).1)
ended_final s d (ok out) = refl
ended_final s d (err e) = absurd e
ended_final s d panic = refl
ended_final s d out_of_fuel = refl

module _ (m : ℕ) (pos : 0 < m) where
  insert_inputs_ok :
      (ins : List (WireId × ℕ)) (user_inputs : HashMap ℕ)
      → (to : HashMap ℕ) × (insert_inputs m ins user_inputs ≡ ok to)
  unfolding insert_inputs
  insert_inputs_ok [] user_inputs = (user_inputs, refl)
  insert_inputs_ok ((w, v) ∷ ins) user_inputs = rw (rem_ok m pos v) (insert_inputs_ok ins _)

  pub prepare_user_input_ok :
      (context : AdditiveContext) (ins : List (WireId × ℕ))
      → (to : AdditiveContext) × (Additive.prepare_user_input m context ins ≡ ok to)
  unfolding Additive.prepare_user_input
  prepare_user_input_ok context ins =
      let (to, runs) = insert_inputs_ok ins context.user_inputs in
      (record context { user_inputs = to }, rw runs refl)

  module _ {Net Hash : Type 0} (N : Network Net Hash ℕ) (fuel : ℕ) (draws : ℕ → ℕ → ℕ) where
    -- `AdditiveScheme::<M>`, for a positive `M`; `prepare_user_input` gives what the code leaves.
    abbrev pub additive_scheme : MpcScheme Net
    additive_scheme = record {
      gates = additive_gates m fuel;
      Context = Drawing;
      NetworkElement = ℕ;
      Wire = ℕ;
      Input = ℕ;
      Pending = AdditivePending;
      establish_context =
          λ net circuit. (net, ok (Additive.establish_context (N.my_id net) (N.n_players net), 0));
      prepare_user_input = λ context ins. ((prepare_user_input_ok context.0 ins).0, context.1);
      do_network_phase = λ context op ins.
          begun context (Additive.do_network_phase m (draws context.1) context.0 op ins);
      do_finalize_phase =
          λ context pending received. ended context (Additive.do_finalize_phase m pending received);
    }

  pub additive_scheme-IsFinal :
      {Net Hash : Type 0} (N : Network Net Hash ℕ) (fuel : ℕ) (draws : ℕ → ℕ → ℕ)
      → IsFinal (additive_scheme N fuel draws)
  additive_scheme-IsFinal N fuel draws = record {
    finalize = λ pending received.
        (ended (establish_context 0 0, 0) (Additive.do_finalize_phase m pending received)).1;
    leaves = λ context pending received.
        ended_final context (establish_context 0 0, 0)
          (Additive.do_finalize_phase m pending received);
  }

  module _ (small : m ≤ 2 ^ 63) where
    abbrev AreSingle : List ReceiveRequest → Type 0
    AreSingle rs = All (λ r. r.count ≡ some 1) rs

    from_ok :
        {o : Outcome ⊥ (AdditiveContext × PhaseOutput)} {c : AdditiveContext} {out : PhaseOutput}
        (d : AdditiveContext) (given : PhaseOutput)
        → o ≡ ok (c, out)
        → o ≡ ok (d, given)
        → AreSingle given.receive_request
        → AreSingle out.receive_request
    from_ok {out} d given h k one =
        let same : given ≡ out = cc in subst (λ x. AreSingle x.receive_request) same one

    received_count :
        (rs : List ReceiveRequest) (batches : List (List ℕ))
        → AreSingle rs
        → Matches rs batches
        → length (concat batches) ≡ length rs
    received_count [] [] one h = refl
    received_count [] (b ∷ bs) one h = absurd h
    received_count (r ∷ rs) [] one h = absurd h
    received_count (r ∷ rs) (b ∷ bs) one h =
        let here : length b ≡ 1 = h.0 ∙ ap expected one.0 in
        omega (arith, here, received_count rs bs one.1 h.1, length-append b (concat bs))

    receives-AreSingle : (is : List ℕ) → AreSingle (map (λ i. receive_request i 1) is)
    receives-AreSingle [] = tt
    receives-AreSingle (i ∷ is) = (refl, receives-AreSingle is)

    -- Every request of an operation waits for one value.
    asks-AreSingle :
        (draw : ℕ → ℕ) (context : AdditiveContext) (op : AdditiveOperation) (ins : List ℕ)
        (c : AdditiveContext) (out : PhaseOutput)
        → ((i : ℕ) → draw i < m)
        → length ins ≡ length (Additive.inputs op)
        → All (λ v. v < m) ins
        → Additive.do_network_phase m draw context op ins ≡ ok (c, out)
        → AreSingle out.receive_request
    unfolding Additive.do_network_phase
    asks-AreSingle draw context (input p w) ins c out below n a h =
        elim (Bool-cases (context.my_id == p)) [
          | inl own ↦
              let (s, runs, lt, total) = share_input_ok m pos small draw context w below in
              from_ok (record context { user_inputs = Map.remove context.user_inputs w })
                (phase_output (input_pending true (some s)) (sent draw context) []) h (rw own runs)
                tt
          | inr other ↦
              from_ok context
                (phase_output (input_pending false none) [] (receive_request p 1 ∷ [])) h
                (rw other refl) (refl, tt)
        ]
    asks-AreSingle draw context (gen_random w) ins c out below n a h =
        from_ok context (phase_output (gen_random_pending (draw context.my_id)) [] []) h
          (rw (gen_range_ok m pos (draw context.my_id)) refl) tt
    asks-AreSingle draw context (add l r w) [] c out below n a h = absurd (omega arith)
    asks-AreSingle draw context (add l r w) (x ∷ []) c out below n a h = absurd (omega arith)
    asks-AreSingle draw context (add l r w) (x ∷ y ∷ ins) c out below n a h =
        from_ok context (phase_output (add_pending ((x + y) % m)) [] []) h
          (rw (add_mod_ok m pos small x y a.0 a.1.0) refl) tt
    asks-AreSingle draw context (reveal v w) [] c out below n a h = absurd (omega arith)
    asks-AreSingle draw context (reveal v w) (z ∷ ins) c out below n a h =
        from_ok context _ h refl (receives-AreSingle (others context.my_id 0 context.n_players))

    -- For `M` from 1 to `2 ^ 63` and drawn values that are all below `M`, the scheme keeps the contract
    -- that the executor relies on, with wires and elements below `M`.
    pub additive_scheme-IsContract :
        {Net Hash : Type 0} (N : Network Net Hash ℕ) (fuel : ℕ) (draws : ℕ → ℕ → ℕ)
        → ((k i : ℕ) → draws k i < m)
        → IsContract (additive_scheme N fuel draws) (λ v. v < m) (λ v. v < m)
    unfolding Safe
    additive_scheme-IsContract N fuel draws below = record {
      establishes = λ net circuit. tt;
      phases = λ (context, k) op ins count small_ins.
          let (c, out, runs, sends, local, fin) =
            phases_lem m pos small (draws k) context op ins (below k) count small_ins in
          let one = asks-AreSingle (draws k) context op ins c out (below k) count small_ins runs in
          rw runs (
            local,
            λ later batches match small_batches.
                let (v, ends, lt) =
                  fin (concat batches) (received_count out.receive_request batches one match)
                    small_batches in
                rw ends (refl, (lt, tt)),
          );
    }
