-- ===== src/Execution/Handshake.antt =====
-- src/mpc/execution.rs: the handshake, on an honest network, establishes a context.
use mpc_core.Prelude.{ℕ, ◌≡◌, refl, subst, Bool, true, false, List, [], ◌∷◌, map, Outcome}
use mpc_core.Prelude.{ok, err, panic, out_of_fuel, some, if◌then◌else◌, Bool-cases, inl, inr}
use mpc_core.Prelude.Map
use mpc_core.Prelude.Runs.{◌>>=◌, lift, gets, modify}
use mpc_core.Operation.{WireId}
use mpc_core.Network.{Network, Matches, receive_request}
use mpc_core.Scheme.{MpcScheme}
use mpc_core.Circuit.{MpcCircuit}
use mpc_core.Execution.{Machine, ExecutionContextError, new_born, handshaked, plan_not_agreed}
use mpc_core.Execution.{execution_context, handshake_method, call_network, scheme_failure}
use mpc_core.Execution.Methods.{handshake, some_differs}
use mpc_core.Execution.Contract.{Safe, >>=-Safe, IsContract, IsHonest}
use mpc_core.Execution.Operations.{lift_ok}
use mpc_core.Execution.Stages.{Stage, assert_state-Safe, gets-Safe, modify-Safe, set_state-Safe}

module _ {St : Type 0} (P : St → Type 0) (s : St) (p : P s) where
  -- An outcome that is no panic is one to go on with.
  pub lift-Safe :
      {E A B : Type 0} (Q : A → Type 0) (b : B) (o : Outcome E A)
      → Safe (λ a _. Q a) (b, o)
      → Safe (λ a t. P t × Q a) (lift o s)
  unfolding Safe lift
  lift-Safe Q b (ok a) h = (p, h)
  lift-Safe Q b (err e) h = tt
  lift-Safe Q b panic h = absurd h
  lift-Safe Q b out_of_fuel h = absurd h

  pub lift_if-Safe :
      {E : Type 0} (b : Bool) (e : E) → Safe (λ _ t. P t) (lift (if b then err e else ok tt) s)
  unfolding Safe lift
  lift_if-Safe true e = tt
  lift_if-Safe false e = p

pub scheme_failure-Safe :
    {B C A : Type 0} (Q : A → Type 0) (b : B) (c : C) (o : Outcome (Unit {0}) A)
    → Safe (λ a _. Q a) (b, o)
    → Safe (λ a _. Q a) (c, scheme_failure o)
unfolding Safe
scheme_failure-Safe Q b c (ok a) h = h
scheme_failure-Safe Q b c (err e) h = tt
scheme_failure-Safe Q b c panic h = absurd h
scheme_failure-Safe Q b c out_of_fuel h = absurd h

-- Each batch has an answer's hash, so taking it does not fail.
some_differs-Safe :
    {Hash : Type 0} (same : Hash → Hash → Bool) (hash : Hash) (players : List ℕ)
    (batches : List (List Hash))
    → Matches (map (λ from. receive_request from 1) players) batches
    → Safe (λ b t. Unit {0}) (tt {0}, some_differs same hash batches)
unfolding some_differs Safe
some_differs-Safe same hash [] [] m = tt
some_differs-Safe same hash [] (b ∷ bs) m = absurd m
some_differs-Safe same hash (p ∷ ps) [] m = absurd m
some_differs-Safe same hash (p ∷ ps) ([] ∷ bs) m = let bad = m.0 in cc
some_differs-Safe same hash (p ∷ ps) ((h ∷ hs) ∷ bs) m = elim (Bool-cases (same h hash)) [
  | inl e ↦ rw e (some_differs-Safe same hash ps bs m.1)
  | inr e ↦ rw e tt
]

nowhere : {V : Type 0} (w : WireId) (x : V) → ¬ (Map.get [] w ≡ some x)
unfolding Map.get
nowhere w x h = cc

module _ {Net Hash : Type 0} (S : MpcScheme Net) (N : Network Net Hash (S.NetworkElement))
    (IsValue : S.Wire → Type 0) (IsElement : S.NetworkElement → Type 0)
    (K : IsContract S IsValue IsElement) (H : IsHonest S N IsElement)
    (digest : MpcCircuit (S.gates.Operation) → Outcome (Unit {0}) Hash) (same : Hash → Hash → Bool)
    (digests : (c : MpcCircuit (S.gates.Operation))
      → Safe (λ h t. Unit {0}) (tt {0}, digest c)) where
  open S use {gates}

  -- The machine before it has a context.
  record Bare (c : MpcCircuit (gates.Operation)) (s : Machine S) : Type 0 where
    circuit : s.circuit ≡ c
    wires : s.wire_contents ≡ []

  call_network-Bare :
      {A : Type 0} (P : A → Type 0) (c : MpcCircuit (gates.Operation)) (s : Machine S)
      (f : Net → Net × Outcome (Unit {0}) A)
      → Bare c s
      → ((net : Net) → Safe (λ a n. P a) (f net))
      → Safe (λ a t. Bare c t × P a) (call_network S f s)
  unfolding call_network gets modify ◌>>=◌
  call_network-Bare P c s f v p =
      lift-Safe (Bare c) _ (record { circuit = v.circuit; wires = v.wires }) P tt _
        (scheme_failure-Safe P _ tt _ (p s.network))

  -- Without a value for any wire, the machine is at the stage where no operation has run.
  Bare-Stage :
      (c : MpcCircuit (gates.Operation)) (context : S.Context) (s : Machine S)
      → Bare c s
      → Stage S N IsValue IsElement K H [] handshaked c
          (record s { scheme_context = some context; execution_state = handshaked })
  Bare-Stage c context s v = record {
    written = record {
      context = context;
      ready = refl;
      has = λ w m. absurd m;
      only = λ w x h. absurd (nowhere w x (subst (λ m. Map.get m w ≡ some x) v.wires h));
    };
    state = refl;
    circuit = v.circuit;
  }

  now :
      (t : Machine S)
      → {c : MpcCircuit (gates.Operation)} → Bare c t
      → Safe (λ net u. Bare c u) (gets {E = ExecutionContextError} (λ m. m.network) t)
  unfolding gets Safe
  now t p = p

  pub handshake-Safe :
      (c : MpcCircuit (gates.Operation)) (net : Net)
      → Safe
          (λ _ t. Stage S N IsValue IsElement K H [] handshaked c t)
          (handshake S N digest same (execution_context S c net))
  unfolding handshake
  handshake-Safe c net =
      >>=-Safe _ _ _ _ (execution_context S c net)
        (assert_state-Safe S N IsValue IsElement K H (Bare c) handshake_method new_born _ refl
          (record { circuit = refl; wires = refl }))
        λ _ t p.
          >>=-Safe _ _ _ _ t
            (gets-Safe S N IsValue IsElement K H (Bare c) (λ m. m.circuit) c t p.circuit p)
            λ circuit t (p, _).
              >>=-Safe _ _ _ _ t
                (lift-Safe (Bare c) t p (λ h. Unit {0}) tt _
                  (scheme_failure-Safe _ tt tt _ (digests circuit)))
                λ hash t (p, _).
                  >>=-Safe _ _ _ _ t
                    (call_network-Bare (λ l. Unit {0}) c t _ p (λ n. H.broadcasts n hash))
                    λ len t (p, _).
                      >>=-Safe (λ net u. Bare c u) _ _ _ t (now t p)
                        λ network t p.
                          >>=-Safe _ _ _ _ t
                            (call_network-Bare _ c t _ p (λ n. H.receives_hashes n _))
                            λ received t (p, m).
                              >>=-Safe _ _ _ _ t
                                (lift-Safe (Bare c) t p (λ b. Unit {0}) tt _
                                  (some_differs-Safe same hash _ received.0 m))
                                λ differs t (p, _).
                                  >>=-Safe _ _ _ _ t
                                    (lift_if-Safe (Bare c) t p differs plan_not_agreed)
                                    λ _ t p.
                                      >>=-Safe _ _ _ _ t
                                        (call_network-Bare (λ x. Unit {0}) c t _ p
                                          (λ n. K.establishes n circuit))
                                        λ context t (p, _).
                                          let Q : Machine S → Type 0 = λ u.
                                            Stage S N IsValue IsElement K H [] handshaked c
                                              (record u { execution_state = handshaked }) in
                                          >>=-Safe (λ _ u. Q u) _ _ _ t
                                            (modify-Safe S N IsValue IsElement K H Q _ t
                                              (Bare-Stage c context t p))
                                            λ _ t p.
                                              >>=-Safe _ _ _ _ t
                                                (set_state-Safe S N IsValue IsElement K H
                                                  (Stage S N IsValue IsElement K H [] handshaked c)
                                                  handshaked t p)
                                                λ _ t p. lift_ok S IsValue IsElement K _ _ t p
