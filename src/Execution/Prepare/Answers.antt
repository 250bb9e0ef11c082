-- ===== src/Execution/Prepare/Answers.antt =====
-- src/mpc/execution.rs, `prepare_input`: its answer, with the errors.
use mpc_core.Prelude.{ℕ, ◌<◌, ◌≡◌, refl, sym, subst, Bool, true, false, some, List}
use mpc_core.Prelude.{
  ok, err, panic, out_of_fuel, Outcome, count, length, arith, ◌↔◌, ◌⊎◌, inl, inr, ◌∈◌, ltb,
  count-pos_of_mem,
}
use mpc_core.Prelude.Runs.{◌>>=◌, lift, gets, modify}
use mpc_core.Operation.{WireId}
use mpc_core.Circuit.{MpcCircuit, get_input_operation_wire_ids_of_party}
use mpc_core.Circuit.New.{new}
use mpc_core.Circuit.New.Inputs.{HaveOneOutput, IsInputOf, get_input_operation_wire_ids_lem}
use mpc_core.Network.{Network}
use mpc_core.Scheme.{MpcScheme}
use mpc_core.Prelude.Map.{HashMap}
use mpc_core.Execution.{
  ExecutionContextError, state_error, plan_not_agreed, scheme_error, duplicate_input,
  invalid_input_wire, not_enough_inputs,
}
use mpc_core.Execution.{
  Machine, finished_offline, ready_online, assert_state, assume_init, set_state,
}
use mpc_core.Execution.Methods.{mark_inputs, no_inputs_yet, prepare_input}
use mpc_core.Execution.Inputs.{wires_of, mark_inputs_lem}
use mpc_core.Execution.Prepare.Marks.{
  Failed, mark_inputs-Failed, never_true, not_listed, exact_of_accepted, missing_input,
}

module _ {Net Hash : Type 0} (S : MpcScheme Net) (N : Network Net Hash (S.NetworkElement))
    (digest : MpcCircuit (S.gates.Operation) → Outcome (Unit {0}) Hash) (same : Hash → Hash → Bool)
    (ops : List (S.gates.Operation)) where
  open S use {gates, Context, Input}

  -- One input for each of the party's input wires, and no other input.
  abbrev pub AreInputsOf : ℕ → List (WireId × Input) → Type 0
  AreInputsOf p ins =
      (w : WireId)
      → ((count w (wires_of ins) ≡ 1) × IsInputOf gates ops p w)
        ⊎ ((count w (wires_of ins) ≡ 0) × ¬ IsInputOf gates ops p w)

  -- The machine with the inputs in the scheme's context.
  abbrev pub prepared : Context → List (WireId × Input) → Machine S → Machine S
  prepared context ins s = record s {
    scheme_context = some (S.prepare_user_input context ins);
    execution_state = ready_online;
  }

  -- The answers, each with its reason; an error leaves the machine.
  abbrev pub IsExplained :
      Context
      → List (WireId × Input)
      → Machine S
      → Machine S × Outcome ExecutionContextError (Unit {0})
      → Type 0
  IsExplained context ins s (t, ok _) =
      (t ≡ prepared context ins s) × AreInputsOf (N.my_id s.network) ins
  IsExplained context ins s (t, err (duplicate_input w)) = (t ≡ s) × (1 < count w (wires_of ins))
  IsExplained context ins s (t, err (invalid_input_wire w)) =
      (t ≡ s) × (w ∈ wires_of ins) × ¬ IsInputOf gates ops (N.my_id s.network) w
  IsExplained context ins s (t, err not_enough_inputs) =
      (t ≡ s)
      × ((w : WireId) × (count w (wires_of ins) ≡ 0) × IsInputOf gates ops (N.my_id s.network) w)
  IsExplained context ins s _ = ⊥

  -- The rest of the method after the loop.
  abbrev answer :
      Context
      → List (WireId × Input)
      → Machine S
      → Outcome ExecutionContextError (HashMap Bool)
      → Bool
      → Machine S × Outcome ExecutionContextError (Unit {0})
  answer context ins s (ok m) true = (s, err not_enough_inputs)
  answer context ins s (ok m) false = (prepared context ins s, ok tt)
  answer context ins s (err e) few = (s, err e)
  answer context ins s panic few = (s, panic)
  answer context ins s out_of_fuel few = (s, out_of_fuel)

  prepare_input_run :
      (context : Context) (ins : List (WireId × Input)) (s : Machine S)
      (c : MpcCircuit gates.Operation) (ws : List WireId)
      (o : Outcome ExecutionContextError (HashMap Bool)) (few : Bool)
      → s.execution_state ≡ finished_offline
      → s.circuit ≡ c
      → s.scheme_context ≡ some context
      → get_input_operation_wire_ids_of_party gates c (N.my_id s.network) ≡ ok ws
      → mark_inputs (no_inputs_yet ws) ins ≡ o
      → ltb (length ins) (length (no_inputs_yet ws)) ≡ few
      → prepare_input S N digest same ins s ≡ answer context ins s o few
  unfolding prepare_input ◌>>=◌ lift gets modify assert_state assume_init set_state
  prepare_input_run context ins s c ws (ok m) true at circ has found marks few =
      rw (at, circ, found, marks, few, has) refl
  prepare_input_run context ins s c ws (ok m) false at circ has found marks few =
      rw (at, circ, found, marks, few, has) refl
  prepare_input_run context ins s c ws (err e) b at circ has found marks few =
      rw (at, circ, found, marks) refl
  prepare_input_run context ins s c ws panic b at circ has found marks few =
      rw (at, circ, found, marks) refl
  prepare_input_run context ins s c ws out_of_fuel b at circ has found marks few =
      rw (at, circ, found, marks) refl

  -- What each outcome of the loop makes of it.
  answer-IsExplained :
      (context : Context) (ins : List (WireId × Input)) (s : Machine S) (ws : List WireId)
      → ((w : WireId) → (w ∈ ws) ↔ IsInputOf gates ops (N.my_id s.network) w)
      → (o : Outcome ExecutionContextError (HashMap Bool)) (few : Bool)
      → Failed (no_inputs_yet ws) ins o
      → mark_inputs (no_inputs_yet ws) ins ≡ o
      → ltb (length ins) (length (no_inputs_yet ws)) ≡ few
      → IsExplained context ins s (answer context ins s o few)
  answer-IsExplained context ins s ws own (ok m) true failed marks few =
      let (w, at, gone) = missing_input ws ins (ground (arith, few)) in
      (refl, (w, gone, (own w).0 at))
  answer-IsExplained context ins s ws own (ok m) false failed marks few =
      let fresh = (mark_inputs_lem (no_inputs_yet ws) ins).0 (m, marks) in
      (
        refl,
        λ w. elim (exact_of_accepted ws ins fresh (ground (arith, few)) w) [
          | inl (n, at) ↦ inl (n, (own w).0 at)
          | inr (n, out) ↦ inr (n, λ h. out ((own w).1 h))
        ],
      )
  answer-IsExplained context ins s ws own (err (duplicate_input w)) few (inl (g, at)) marks _ =
      absurd (never_true ws w g)
  answer-IsExplained context ins s ws own (err (duplicate_input w)) few (inr more) marks _ =
      (refl, more)
  answer-IsExplained context ins s ws own (err (invalid_input_wire w)) few (at, g) marks _ =
      (refl, at, λ h. not_listed ws w g ((own w).1 h))
  answer-IsExplained context ins s ws own (err (state_error _ _)) few failed marks _ = absurd failed
  answer-IsExplained context ins s ws own (err plan_not_agreed) few failed marks _ = absurd failed
  answer-IsExplained context ins s ws own (err not_enough_inputs) few failed marks _ = absurd failed
  answer-IsExplained context ins s ws own (err scheme_error) few failed marks _ = absurd failed
  answer-IsExplained context ins s ws own panic few failed marks _ = absurd failed
  answer-IsExplained context ins s ws own out_of_fuel few failed marks _ = absurd failed

  IsExplained-AreInputsOf :
      (context : Context) (ins : List (WireId × Input)) (s : Machine S)
      (r : Machine S × Outcome ExecutionContextError (Unit {0}))
      → AreInputsOf (N.my_id s.network) ins
      → IsExplained context ins s r
      → r ≡ (prepared context ins s, ok tt)
  IsExplained-AreInputsOf context ins s (t, ok _) exact h = rw h.0 refl
  IsExplained-AreInputsOf context ins s (t, err (duplicate_input w)) exact h = elim (exact w) [
    | inl (n, own) ↦ absurd (omega (arith, n, h.1))
    | inr (n, out) ↦ absurd (omega (arith, n, h.1))
  ]
  IsExplained-AreInputsOf context ins s (t, err (invalid_input_wire w)) exact (_, at, none_of) =
      elim (exact w) [
        | inl (n, own) ↦ absurd (none_of own)
        | inr (n, out) ↦ absurd (omega (arith, n, count-pos_of_mem w (wires_of ins) at))
      ]
  IsExplained-AreInputsOf context ins s (t, err not_enough_inputs) exact (_, (w, gone, own)) =
      elim (exact w) [
        | inl (n, _) ↦ absurd (omega (arith, n, gone))
        | inr (n, out) ↦ absurd (out own)
      ]
  IsExplained-AreInputsOf context ins s (t, err (state_error _ _)) exact h = absurd h
  IsExplained-AreInputsOf context ins s (t, err plan_not_agreed) exact h = absurd h
  IsExplained-AreInputsOf context ins s (t, err scheme_error) exact h = absurd h
  IsExplained-AreInputsOf context ins s (t, panic) exact h = absurd h
  IsExplained-AreInputsOf context ins s (t, out_of_fuel) exact h = absurd h

  module _ (c : MpcCircuit gates.Operation) (context : Context) (ins : List (WireId × Input))
      (s : Machine S) (one : HaveOneOutput gates ops) (made : new gates ops ≡ ok c)
      (at : s.execution_state ≡ finished_offline) (circ : s.circuit ≡ c)
      (has : s.scheme_context ≡ some context) where
    -- On a machine that has done the offline phase of a circuit that `new` made, of operations whose
    -- inputs have one output each, with an established context, `prepare_input` returns, and each of its
    -- answers has its reason. After a success the inputs were one for each of the party's input wires and
    -- no other, and the scheme's context has them; otherwise the machine is as it was, and the wire of
    -- `DuplicateInput` was given more than once, that of `InvalidInputWire` was given and is no input wire of
    -- the party, and with `NotEnoughInputs` some input wire of the party was not given.
    pub prepare_input-IsExplained : IsExplained context ins s (prepare_input S N digest same ins s)
    prepare_input-IsExplained =
        let (ws, found, own) =
          get_input_operation_wire_ids_lem gates ops c (N.my_id s.network) one made in
        let marked = mark_inputs (no_inputs_yet ws) ins in
        let few = ltb (length ins) (length (no_inputs_yet ws)) in
        subst (IsExplained context ins s)
          (sym (prepare_input_run context ins s c ws marked few at circ has found refl refl))
          (answer-IsExplained context ins s ws own marked few
            (mark_inputs-Failed (no_inputs_yet ws) ins) refl refl)

    -- On such a machine `prepare_input` succeeds, and hands the inputs to the scheme, just when they are
    -- one for each of the party's input wires, in any order, and no other.
    pub prepare_input_lem :
        (prepare_input S N digest same ins s ≡ (prepared context ins s, ok tt))
        ↔ AreInputsOf (N.my_id s.network) ins
    prepare_input_lem = (
      λ e. (subst (IsExplained context ins s) e prepare_input-IsExplained).1,
      λ exact. IsExplained-AreInputsOf context ins s _ exact prepare_input-IsExplained,
    )
