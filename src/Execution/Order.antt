-- ===== src/Execution/Order.antt =====
-- src/mpc/execution.rs: the order in which the methods of `ExecutionContext` can be called, and the
-- life of the scheme context.
use mpc_core.Prelude.{ℕ, ◌≡◌, refl, ◌∙◌, sym, ap, Bool, true, false, some, List, [], ◌∷◌}
use mpc_core.Prelude.{Outcome, ok, err, panic, out_of_fuel, is_some, if◌then◌else◌}
use mpc_core.Prelude.Runs.{go_on, ◌>>=◌, lift, modify}
use mpc_core.Operation.{WireId}
use mpc_core.Circuit.{MpcCircuit}
use mpc_core.Network.{Network}
use mpc_core.Scheme.{MpcScheme}
use mpc_core.Execution.{
  ExecutionState, new_born, handshaked, finished_offline, ready_online, finished,
}
use mpc_core.Execution.{
  Method, handshake_method, do_offline_method, prepare_input_method, do_online_method,
}
use mpc_core.Execution.{
  ExecutionContextError, state_error, same_state, Machine, Act, execution_context,
}
use mpc_core.Execution.{assert_state, set_state}
use mpc_core.Execution.Methods.{handshake, do_offline, prepare_input, do_online}
use mpc_core.Execution.Keeps.{Same, Keeps, Same-refl, Same-trans, lift-Keeps, gets-Keeps}
use mpc_core.Execution.Keeps.{call_network-Keeps, do_rounds-Keeps, assume_init-Keeps}

-- The state in which a method can be called, and the one it leads to.
abbrev pub from_state : Method → ExecutionState
from_state handshake_method = new_born
from_state do_offline_method = handshaked
from_state prepare_input_method = finished_offline
from_state do_online_method = ready_online

abbrev pub to_state : Method → ExecutionState
to_state handshake_method = handshaked
to_state do_offline_method = finished_offline
to_state prepare_input_method = ready_online
to_state do_online_method = finished

abbrev pub past_handshake : ExecutionState → Bool
past_handshake new_born = false
past_handshake _ = true

-- The state after a call: the next one after a success, and the old one otherwise.
abbrev pub state_after :
    {A : Type 0} → Method → ExecutionState → Outcome ExecutionContextError A → ExecutionState
state_after method old (ok a) = to_state method
state_after method old _ = old

module _ {Net : Type 0} (S : MpcScheme Net) where
  -- The scheme context is initialised in all states but the first.
  abbrev pub IsInitialised : Machine S → Type 0
  IsInitialised s = is_some s.scheme_context ≡ past_handshake s.execution_state

  -- What a call of a method leaves behind, for each way out.
  pub record Moves {A : Type 0} (method : Method) (s : Machine S)
      (r : Machine S × Outcome ExecutionContextError A) : Type 0 where
    pub refused :
        same_state s.execution_state (from_state method) ≡ false
        → r ≡ (s, err (state_error method s.execution_state))
    pub state : r.0.execution_state ≡ state_after method s.execution_state r.1
    pub circuit : r.0.circuit ≡ s.circuit
    pub initialised : IsInitialised s → IsInitialised r.0

  -- The same of the part of a method behind its guard, for the machine at the method's start.
  record Ends {A : Type 0} (method : Method) (s : Machine S)
      (r : Machine S × Outcome ExecutionContextError A) : Type 0 where
    state : r.0.execution_state ≡ state_after method s.execution_state r.1
    circuit : r.0.circuit ≡ s.circuit
    initialised : IsInitialised s → IsInitialised r.0

  stop-IsInitialised : {s t : Machine S} → Same S s t → IsInitialised s → IsInitialised t
  stop-IsInitialised p i = p.initialised ∙ i ∙ ap past_handshake (sym p.state)

  go_on-Ends :
      {A B : Type 0} (method : Method) (s : Machine S) (r : Machine S × Outcome _ A)
      (f : A → Act S B)
      → Same S s r.0
      → ((a : A) (u : Machine S) → Same S s u → Ends method s (f a u))
      → Ends method s (go_on r f)
  go_on-Ends method s (t, ok a) f p k = k a t p
  go_on-Ends method s (t, err e) f p k = record {
    state = p.state;
    circuit = p.circuit;
    initialised = stop-IsInitialised p;
  }
  go_on-Ends method s (t, panic) f p k = record {
    state = p.state;
    circuit = p.circuit;
    initialised = stop-IsInitialised p;
  }
  go_on-Ends method s (t, out_of_fuel) f p k = record {
    state = p.state;
    circuit = p.circuit;
    initialised = stop-IsInitialised p;
  }

  then-Ends :
      {A B : Type 0} (method : Method) (s t : Machine S) (m : Act S A) (f : A → Act S B)
      → Same S s t
      → Keeps S m
      → ((a : A) (u : Machine S) → Same S s u → Ends method s (f a u))
      → Ends method s ((m >>= f) t)
  unfolding ◌>>=◌
  then-Ends method s t m f p k l = go_on-Ends method s (m t) f (Same-trans S p (k t)) l

  settle-Ends :
      {A : Type 0} (method : Method) (s u : Machine S) (a : A)
      → Same S s u
      → past_handshake s.execution_state ≡ past_handshake (to_state method)
      → Ends method s ((set_state S (to_state method) >>= λ _. lift (ok a)) u)
  unfolding set_state ◌>>=◌ modify lift
  settle-Ends method s u a p h = record {
    state = refl;
    circuit = p.circuit;
    initialised = λ i. p.initialised ∙ i ∙ h;
  }

  prepared :
      (s t : Machine S) (context : S.Context)
      → Same S s t
      → Ends prepare_input_method s (
          (modify (λ u. record u { scheme_context = some context }) >>= λ _.
          set_state S ready_online)
            t)
  unfolding set_state ◌>>=◌ modify
  prepared s t context p = record { state = refl; circuit = p.circuit; initialised = λ i. refl }

  shaken :
      {A : Type 0} (s t : Machine S) (context : S.Context) (a : A)
      → Same S s t
      → Ends handshake_method s (
          (modify (λ u. record u { scheme_context = some context }) >>= λ _.
          set_state S handshaked >>= λ _. lift (ok a))
            t)
  unfolding set_state ◌>>=◌ modify lift
  shaken s t context a p = record { state = refl; circuit = p.circuit; initialised = λ i. refl }

  same_state→≡ : (a b : ExecutionState) → same_state a b ≡ true → a ≡ b
  same_state→≡ new_born new_born h = refl
  same_state→≡ handshaked handshaked h = refl
  same_state→≡ finished_offline finished_offline h = refl
  same_state→≡ ready_online ready_online h = refl
  same_state→≡ finished finished h = refl
  same_state→≡ a b h = cc

  guarded :
      {A : Type 0} (method : Method) (body : Act S A) (s : Machine S) (test : Bool)
      → same_state s.execution_state (from_state method) ≡ test
      → (s.execution_state ≡ from_state method → Ends method s (body s))
      → Moves method s (
          go_on
            (if test then (s, ok tt) else (s, err (state_error method s.execution_state)))
            (λ _. body))
  guarded method body s false e k = record {
    refused = λ h. refl;
    state = refl;
    circuit = refl;
    initialised = λ i. i;
  }
  guarded method body s true e k =
      let ends = k (same_state→≡ _ _ e) in
      record {
        refused = λ h. cc;
        state = ends.state;
        circuit = ends.circuit;
        initialised = ends.initialised;
      }

  guarded-Moves :
      {A : Type 0} (method : Method) (body : Act S A) (s : Machine S)
      → (s.execution_state ≡ from_state method → Ends method s (body s))
      → Moves method s ((assert_state S method (from_state method) >>= λ _. body) s)
  unfolding assert_state ◌>>=◌
  guarded-Moves method body s k = guarded method body s _ refl k

  module _ {Hash : Type 0} (N : Network Net Hash (S.NetworkElement))
      (digest : MpcCircuit (S.gates.Operation) → Outcome (Unit {0}) Hash)
      (same : Hash → Hash → Bool) where
    do_offline-Moves : (s : Machine S) → Moves do_offline_method s (do_offline S N digest same s)
    unfolding do_offline
    do_offline-Moves s = guarded-Moves do_offline_method _ s λ at.
        then-Ends do_offline_method s s _ _ (Same-refl S s) (gets-Keeps S _) λ circuit t p.
          then-Ends do_offline_method s t _ _ p (do_rounds-Keeps S N _ _)
            λ totals u q. settle-Ends do_offline_method s u totals q (ap past_handshake at)

    do_online-Moves : (s : Machine S) → Moves do_online_method s (do_online S N digest same s)
    unfolding do_online
    do_online-Moves s = guarded-Moves do_online_method _ s λ at.
        then-Ends do_online_method s s _ _ (Same-refl S s) (gets-Keeps S _) λ circuit t p.
          then-Ends do_online_method s t _ _ p (do_rounds-Keeps S N _ _)
            λ totals u q. settle-Ends do_online_method s u totals q (ap past_handshake at)

    prepare_input-Moves :
        (ins : List (WireId × S.Input)) (s : Machine S)
        → Moves prepare_input_method s (prepare_input S N digest same ins s)
    unfolding prepare_input
    prepare_input-Moves ins s = guarded-Moves prepare_input_method _ s λ at.
        then-Ends prepare_input_method s s _ _ (Same-refl S s) (gets-Keeps S _) λ circuit t p.
          then-Ends prepare_input_method s t _ _ p (gets-Keeps S _) λ network t p.
            then-Ends prepare_input_method s t _ _ p (lift-Keeps S _) λ wires t p.
              then-Ends prepare_input_method s t _ _ p (lift-Keeps S _) λ marked t p.
                then-Ends prepare_input_method s t _ _ p (lift-Keeps S _) λ enough t p.
                  then-Ends prepare_input_method s t _ _ p (assume_init-Keeps S)
                    λ context t p. prepared s t _ p

    handshake-Moves : (s : Machine S) → Moves handshake_method s (handshake S N digest same s)
    unfolding handshake
    handshake-Moves s = guarded-Moves handshake_method _ s λ at.
        then-Ends handshake_method s s _ _ (Same-refl S s) (gets-Keeps S _) λ circuit t p.
          then-Ends handshake_method s t _ _ p (lift-Keeps S _) λ hash t p.
            then-Ends handshake_method s t _ _ p (call_network-Keeps S _) λ sent t p.
              then-Ends handshake_method s t _ _ p (gets-Keeps S _) λ network t p.
                then-Ends handshake_method s t _ _ p (call_network-Keeps S _) λ received t p.
                  then-Ends handshake_method s t _ _ p (lift-Keeps S _) λ differs t p.
                    then-Ends handshake_method s t _ _ p (lift-Keeps S _) λ agreed t p.
                      then-Ends handshake_method s t _ _ p (call_network-Keeps S _)
                        λ context t p. shaken s t context _ p

    -- A call of a method, with its arguments and the type of its answer.
    pub data Call : Type 0 where
      handshake_call do_offline_call do_online_call : Call
      prepare_input_call : List (WireId × S.Input) → Call

    abbrev pub Answer : Call → Type 0
    Answer (prepare_input_call ins) = Unit {0}
    Answer _ = ℕ × ℕ

    abbrev pub method_of : Call → Method
    method_of handshake_call = handshake_method
    method_of do_offline_call = do_offline_method
    method_of do_online_call = do_online_method
    method_of (prepare_input_call ins) = prepare_input_method

    unfoldable pub perform : (c : Call) → Act S (Answer c)
    perform handshake_call = handshake S N digest same
    perform do_offline_call = do_offline S N digest same
    perform do_online_call = do_online S N digest same
    perform (prepare_input_call ins) = prepare_input S N digest same ins

    -- The machine after a sequence of calls, whatever their outcomes.
    unfoldable pub after_calls : List Call → Machine S → Machine S
    unfolding perform
    after_calls [] s = s
    after_calls (c ∷ cs) s = after_calls cs (perform c s).0

    -- A call of a method in another state than the method's own is refused with that state, and changes
    -- nothing. In its own state, a success leads to the method's next state, and every other way out
    -- keeps the state. No call changes the circuit, and one on a machine with the scheme context
    -- initialised in just the states after the first leaves such a machine.
    pub perform-Moves : (c : Call) (s : Machine S) → Moves (method_of c) s (perform c s)
    unfolding perform
    perform-Moves handshake_call s = handshake-Moves s
    perform-Moves do_offline_call s = do_offline-Moves s
    perform-Moves do_online_call s = do_online-Moves s
    perform-Moves (prepare_input_call ins) s = prepare_input-Moves ins s

    after_calls-IsInitialised :
        (cs : List Call) (s : Machine S) → IsInitialised s → IsInitialised (after_calls cs s)
    unfolding after_calls
    after_calls-IsInitialised [] s i = i
    after_calls-IsInitialised (c ∷ cs) s i =
        after_calls-IsInitialised cs (perform c s).0 ((perform-Moves c s).initialised i)

    -- Whatever is called on a new context, in whatever order and with whatever outcomes, the scheme
    -- context is initialised in just the states after the first: the states in which `drop` drops it.
    pub calls-IsInitialised :
        (circuit : MpcCircuit (S.gates.Operation)) (net : Net) (cs : List Call)
        → IsInitialised (after_calls cs (execution_context S circuit net))
    calls-IsInitialised circuit net cs =
        after_calls-IsInitialised cs (execution_context S circuit net) refl
