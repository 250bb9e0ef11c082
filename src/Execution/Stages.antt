-- ===== src/Execution/Stages.antt =====
-- src/mpc/execution.rs with src/mpc/circuit.rs: a phase of rounds takes the machine from one stage to
-- the next, on a circuit that `MpcCircuit::new` has made.
use mpc_core.Prelude.{◌≤◌, ◌≡◌, refl, ◌∙◌, sym, ap, subst, Bool, true, false, List, [], ◌∷◌, ◌++◌}
use mpc_core.Prelude.{concat, map, keep, count, All, arith, Outcome, ok, err, panic, out_of_fuel}
use mpc_core.Prelude.{Bool-cases, Option-cases, inl, inr}
use mpc_core.Prelude.Map
use mpc_core.Prelude.Map.{HashMap}
use mpc_core.Prelude.Runs.{◌>>=◌, lift, gets, modify}
use mpc_core.Operation.{WireId, Gates}
use mpc_core.Network.{Network}
use mpc_core.Scheme.{MpcScheme}
use mpc_core.Circuit.{Round, MpcCircuit}
use mpc_core.Circuit.Graph.Producers.{all_outputs}
use mpc_core.Circuit.Sort.Trace.{split}
use mpc_core.Circuit.New.Outcomes.{Compiles}
use mpc_core.Circuit.New.Ready.{IsExecutable, after}
use mpc_core.Execution.{
  Machine, ExecutionContextError, ExecutionState, new_born, handshaked, finished_offline,
  ready_online, finished,
}
use mpc_core.Execution.{Method, assert_state, set_state, same_state}
use mpc_core.Execution.Rounds.{do_rounds}
use mpc_core.Execution.Methods.{mark_inputs}
use mpc_core.Execution.Keeps.{Same, do_rounds-Keeps}
use mpc_core.Execution.Contract.{Safe, >>=-Safe, IsContract, IsHonest}
use mpc_core.Execution.Wires.{Written}
use mpc_core.Execution.Outputs.{after-split_count, count-perm, all_outputs-count}
use mpc_core.Execution.Operations.{lift_ok}
use mpc_core.Execution.Complete.{AreLocal, do_rounds-Safe}

-- The post-condition together with what holds of the state on every way out.
Safe-and :
    {St E A : Type 0} (P : A → St → Type 0) (Q : St → Type 0) (r : St × Outcome E A)
    → Safe P r
    → Q r.0
    → Safe (λ a t. P a t × Q t) r
unfolding Safe
Safe-and P Q (t, ok a) p q = (p, q)
Safe-and P Q (t, err e) p q = tt
Safe-and P Q (t, panic) p q = absurd p
Safe-and P Q (t, out_of_fuel) p q = absurd p

pub marked :
    {Input : Type 0} {St : Type 0} (P : St → Type 0) (s : St) (m : HashMap Bool)
    (ins : List (WireId × Input))
    → P s
    → Safe (λ _ t. P t) (s, mark_inputs m ins)
unfolding mark_inputs Safe
marked P s m [] p = p
marked P s m ((w, x) ∷ ins) p = elim (Option-cases (Map.get m w)) [
  | inl e ↦ rw (mark_inputs, e) tt
  | inr (true, e) ↦ rw (mark_inputs, e) tt
  | inr (false, e) ↦ rw (mark_inputs, e) (marked P s (Map.put m w true) ins p)
]

same_state_refl : (a : ExecutionState) → same_state a a ≡ true
same_state_refl new_born = refl
same_state_refl handshaked = refl
same_state_refl finished_offline = refl
same_state_refl ready_online = refl
same_state_refl finished = refl

module _ (G : Gates) where
  pub IsExecutable-split :
      (done : List (G.Operation)) (xs ys : List (Round (G.Operation)))
      → IsExecutable G done (xs ++ ys)
      → IsExecutable G done xs × IsExecutable G (after G done xs) ys
  IsExecutable-split done [] ys h = (tt, h)
  IsExecutable-split done (r ∷ xs) ys h =
      let (a, b) =
        IsExecutable-split ((done ++ r.local_operations) ++ r.network_operations) xs ys h.2 in
      ((h.0, h.1, a), b)

  pub after-append :
      (done : List (G.Operation)) (xs ys : List (Round (G.Operation)))
      → after G done (xs ++ ys) ≡ after G (after G done xs) ys
  after-append done [] ys = refl
  after-append done (r ∷ xs) ys =
      after-append ((done ++ r.local_operations) ++ r.network_operations) xs ys

  keep-All : (p : G.Operation → Bool) (xs : List (G.Operation)) → All (λ x. p x ≡ true) (keep p xs)
  keep-All p [] = tt
  keep-All p (x ∷ xs) = elim (Bool-cases (p x)) [
    | inl e ↦ rw e (e, keep-All p xs)
    | inr e ↦ rw e (keep-All p xs)
  ]

  pub split-AreLocal :
      (ws : List (List (G.Operation)))
      → All (λ r. All (λ op. G.is_operation_local op ≡ true) r.local_operations) (map (split G) ws)
  split-AreLocal [] = tt
  split-AreLocal (w ∷ ws) = (keep-All G.is_operation_local w, split-AreLocal ws)

  -- The rounds of a circuit put out what its operations do.
  pub rounds_count :
      (ops : List (G.Operation)) (c : MpcCircuit (G.Operation)) (w : WireId)
      → Compiles G ops c
      → count w (all_outputs G (after G (after G [] c.offline_rounds) c.online_rounds))
        ≡ count w (all_outputs G ops)
  rounds_count ops c w k =
      let off = after G [] (map (split G) k.offline_waves) in
      let total : count w (all_outputs G (after G off (map (split G) k.online_waves)))
          ≡ count w (all_outputs G (concat k.offline_waves ++ concat k.online_waves)) =
        omega (
          arith,
          after-split_count G off k.online_waves w,
          after-split_count G [] k.offline_waves w,
          all_outputs-count G (concat k.offline_waves) (concat k.online_waves) w,
        ) in
      rw (k.offline, k.online) (total ∙ count-perm G _ ops w k.same)

module _ {Net Hash : Type 0} (S : MpcScheme Net) (N : Network Net Hash (S.NetworkElement))
    (IsValue : S.Wire → Type 0) (IsElement : S.NetworkElement → Type 0)
    (K : IsContract S IsValue IsElement) (H : IsHonest S N IsElement) where
  open S use {gates}

  -- The machine in a state, with a circuit, and with values at just the outputs of `done`.
  pub record Stage (done : List (gates.Operation)) (at : ExecutionState)
      (c : MpcCircuit (gates.Operation)) (s : Machine S) : Type 0 where
    pub written : Written S IsValue (all_outputs gates done) s
    pub state : s.execution_state ≡ at
    pub circuit : s.circuit ≡ c

  pub assert_state-Safe :
      (P : Machine S → Type 0) (method : Method) (expected : ExecutionState) (s : Machine S)
      → s.execution_state ≡ expected
      → P s
      → Safe (λ _ t. P t) (assert_state S method expected s)
  unfolding assert_state Safe
  assert_state-Safe P method expected s e p =
      let passes : same_state s.execution_state expected ≡ true =
        ap (λ a. same_state a expected) e ∙ same_state_refl expected in
      rw passes p

  pub gets-Safe :
      {A : Type 0} (P : Machine S → Type 0) (f : Machine S → A) (a : A) (s : Machine S)
      → f s ≡ a
      → P s
      → Safe (λ b t. P t × (b ≡ a)) (gets {E = ExecutionContextError} f s)
  unfolding gets Safe
  gets-Safe P f a s e p = (p, e)

  pub modify-Safe :
      (P : Machine S → Type 0) (f : Machine S → Machine S) (s : Machine S)
      → P (f s)
      → Safe (λ _ t. P t) (modify {E = ExecutionContextError} f s)
  unfolding modify Safe
  modify-Safe P f s p = p

  pub set_state-Safe :
      (P : Machine S → Type 0) (next : ExecutionState) (s : Machine S)
      → P (record s { execution_state = next })
      → Safe (λ _ t. P t) (set_state S next s)
  unfolding set_state
  set_state-Safe P next s p = modify-Safe P _ s p

  -- The rounds of a phase and its last change of the state.
  rounds-Safe :
      (from next : ExecutionState) (done : List (gates.Operation))
      (c : MpcCircuit (gates.Operation)) (rounds : List (Round (gates.Operation))) (s : Machine S)
      → Stage done from c s
      → IsExecutable gates done rounds
      → AreLocal S N IsValue IsElement K H rounds
      → ((w : WireId) → count w (all_outputs gates (after gates done rounds)) ≤ 1)
      → Safe
          (λ _ t. Stage (after gates done rounds) next c t)
          ((do_rounds S N rounds (0, 0) >>= λ totals. set_state S next >>= λ _. lift (ok totals)) s)
  rounds-Safe from next done c rounds s v x local once =
      >>=-Safe
        (λ _ t. Written S IsValue (all_outputs gates (after gates done rounds)) t × Same S s t) _ _
        _ s
        (Safe-and _ (Same S s) _
          (do_rounds-Safe S N IsValue IsElement K H done rounds (0, 0) s v.written x local once)
          (do_rounds-Keeps S N rounds (0, 0) s))
        λ totals t (p, same).
          >>=-Safe (λ _ u. Stage (after gates done rounds) next c u) _ _ _ t
            (set_state-Safe (λ u. Stage (after gates done rounds) next c u) next t
              (record {
                written = record {
                  context = p.context;
                  ready = p.ready;
                  has = p.has;
                  only = p.only;
                };
                state = refl;
                circuit = same.circuit ∙ v.circuit;
              }))
            λ _ u q. lift_ok S IsValue IsElement K _ totals u q

  -- A phase of rounds, with its guard.
  pub phase-Safe :
      (rounds_of : MpcCircuit (gates.Operation) → List (Round (gates.Operation))) (method : Method)
      (from next : ExecutionState) (done : List (gates.Operation))
      (c : MpcCircuit (gates.Operation)) (s : Machine S)
      → Stage done from c s
      → IsExecutable gates done (rounds_of c)
      → AreLocal S N IsValue IsElement K H (rounds_of c)
      → ((w : WireId) → count w (all_outputs gates (after gates done (rounds_of c))) ≤ 1)
      → Safe
          (λ _ t. Stage (after gates done (rounds_of c)) next c t)
          ((assert_state S method from >>= λ _. gets (λ s. s.circuit) >>= λ c.
              do_rounds S N (rounds_of c) (0, 0) >>= λ totals.
              set_state S next >>= λ _. lift (ok totals))
            s)
  phase-Safe rounds_of method from next done c s v x local once =
      >>=-Safe _ _ _ _ s (assert_state-Safe (Stage done from c) method from s v.state v) λ _ t p.
        >>=-Safe _ _ _ _ t (gets-Safe (Stage done from c) (λ m. m.circuit) c t p.circuit p)
          λ a t (p, e).
            subst
              (λ k.
                Safe (λ _ u. Stage (after gates done (rounds_of c)) next c u)
                  ((do_rounds S N (rounds_of k) (0, 0) >>= λ totals.
                      set_state S next >>= λ _. lift (ok totals))
                    t))
              (sym e) (rounds-Safe from next done c (rounds_of c) t p x local once)
