-- ===== src/Execution/Keeps.antt =====
-- src/mpc/execution.rs: the rounds leave the state of the machine as it is, and an initialised scheme
-- context initialised, whatever way they end.
use mpc_core.Prelude.{ℕ, ◌≡◌, refl, ◌∙◌, sym, ap, Option, none, some, List, [], ◌∷◌}
use mpc_core.Prelude.{Outcome, ok, err, panic, out_of_fuel, unwrap, is_some}
use mpc_core.Prelude.Runs.{go_on, ◌>>=◌, ◌>>◌, lift, gets, modify}
use mpc_core.Operation.{WireId}
use mpc_core.Circuit.{Round}
use mpc_core.Network.{Network}
use mpc_core.Scheme.{MpcScheme}
use mpc_core.Execution.{Machine, Act, assume_init, call_scheme, call_network, scheme_failure}
use mpc_core.Execution.Rounds.{
  read_wires, write_wires, begin_operation, do_local_operation, do_local_operations,
  begin_operations, finalize_operations, write_results, do_network_operations, do_rounds, Output,
}

module _ {Net : Type 0} (S : MpcScheme Net) where
  open S use {gates, Wire, NetworkElement}

  -- The parts of the machine that the rounds keep.
  pub record Same (s t : Machine S) : Type 0 where
    pub state : t.execution_state ≡ s.execution_state
    pub initialised : is_some t.scheme_context ≡ is_some s.scheme_context
    pub circuit : t.circuit ≡ s.circuit

  abbrev pub Keeps : {A : Type 0} → Act S A → Type 0
  Keeps m = (s : Machine S) → Same s (m s).0

  pub Same-refl : (s : Machine S) → Same s s
  Same-refl s = record { state = refl; initialised = refl; circuit = refl }

  pub Same-trans : {s t u : Machine S} → Same s t → Same t u → Same s u
  Same-trans p q = record {
    state = q.state ∙ p.state;
    initialised = q.initialised ∙ p.initialised;
    circuit = q.circuit ∙ p.circuit;
  }

  go_on-Same :
      {A B : Type 0} (s : Machine S) (r : Machine S × Outcome _ A) (f : A → Act S B)
      → Same s r.0
      → ((a : A) → Keeps (f a))
      → Same s (go_on r f).0
  go_on-Same s (t, ok a) f p k = Same-trans p (k a t)
  go_on-Same s (t, err e) f p k = p
  go_on-Same s (t, panic) f p k = p
  go_on-Same s (t, out_of_fuel) f p k = p

  pub >>=-Keeps :
      {A B : Type 0} (m : Act S A) (f : A → Act S B)
      → Keeps m
      → ((a : A) → Keeps (f a))
      → Keeps (m >>= f)
  unfolding ◌>>=◌
  >>=-Keeps m f k l s = go_on-Same s (m s) f (k s) l

  pub lift-Keeps : {A : Type 0} (o : Outcome _ A) → Keeps (lift o)
  unfolding lift
  lift-Keeps o s = Same-refl s

  pub gets-Keeps : {A : Type 0} (f : Machine S → A) → Keeps (gets f)
  unfolding gets
  gets-Keeps f s = Same-refl s

  read_wires-Keeps : (ids : List WireId) → Keeps (read_wires S ids)
  unfolding read_wires
  read_wires-Keeps [] = lift-Keeps _
  read_wires-Keeps (id ∷ ids) = >>=-Keeps _ _ (gets-Keeps _) λ contents.
      >>=-Keeps _ _ (lift-Keeps _)
        λ wire. >>=-Keeps _ _ (read_wires-Keeps ids) λ wires. lift-Keeps _

  write_wires-Keeps : (ids : List WireId) (wires : List Wire) → Keeps (write_wires S ids wires)
  unfolding write_wires modify
  write_wires-Keeps [] [] = lift-Keeps _
  write_wires-Keeps [] (wire ∷ wires) = lift-Keeps _
  write_wires-Keeps (id ∷ ids) [] = lift-Keeps _
  write_wires-Keeps (id ∷ ids) (wire ∷ wires) = >>=-Keeps _ _ (gets-Keeps _) λ prev.
      >>=-Keeps _ _ (λ s. record { state = refl; initialised = refl; circuit = refl })
        λ done. >>=-Keeps _ _ (lift-Keeps _) λ checked. write_wires-Keeps ids wires

  pub call_network-Keeps :
      {A : Type 0} (f : Net → Net × Outcome (Unit {0}) A) → Keeps (call_network S f)
  unfolding call_network modify
  call_network-Keeps f = >>=-Keeps _ _ (gets-Keeps _) λ network.
      >>=-Keeps _ _ (λ s. record { state = refl; initialised = refl; circuit = refl })
        λ done. lift-Keeps _

  pub assume_init-Keeps : Keeps (assume_init S)
  unfolding assume_init
  assume_init-Keeps s = Same-refl s

  called :
      {A : Type 0} (f : S.Context → S.Context × Outcome (Unit {0}) A) (s : Machine S)
      (o : Option S.Context)
      → s.scheme_context ≡ o
      → Same s
          (go_on
            (s, unwrap o)
            (λ context.
              modify (λ t. record t { scheme_context = some (f context).0 })
              >> lift (scheme_failure (f context).1))).0
  unfolding ◌>>=◌ modify lift
  called f s none e = Same-refl s
  called f s (some c) e = record { state = refl; initialised = ap is_some (sym e); circuit = refl }

  -- A call of the scheme is made only on a context that is there, and leaves one.
  call_scheme-Keeps :
      {A : Type 0} (f : S.Context → S.Context × Outcome (Unit {0}) A) → Keeps (call_scheme S f)
  unfolding call_scheme assume_init ◌>>=◌
  call_scheme-Keeps f s = called f s s.scheme_context refl

  begin_operation-Keeps : (op : gates.Operation) → Keeps (begin_operation S op)
  unfolding begin_operation
  begin_operation-Keeps op = >>=-Keeps _ _ (read_wires-Keeps _) λ ins. call_scheme-Keeps _

  do_local_operations-Keeps : (ops : List gates.Operation) → Keeps (do_local_operations S ops)
  unfolding do_local_operations do_local_operation
  do_local_operations-Keeps [] = lift-Keeps _
  do_local_operations-Keeps (op ∷ ops) =
      >>=-Keeps _ _
        (>>=-Keeps _ _ (begin_operation-Keeps op) λ out. >>=-Keeps _ _ (lift-Keeps _) λ sends.
          >>=-Keeps _ _ (lift-Keeps _)
            λ receives. >>=-Keeps _ _ (call_scheme-Keeps _) λ output. write_wires-Keeps _ _)
        λ done. do_local_operations-Keeps ops

  begin_operations-Keeps : (ops : List gates.Operation) → Keeps (begin_operations S ops)
  unfolding begin_operations
  begin_operations-Keeps [] = lift-Keeps _
  begin_operations-Keeps (op ∷ ops) =
      >>=-Keeps _ _ (begin_operation-Keeps op)
        λ out. >>=-Keeps _ _ (begin_operations-Keeps ops) λ outs. lift-Keeps _

  finalize_operations-Keeps :
      (outs : List (gates.Operation × Output S)) (batches : List (List NetworkElement))
      → Keeps (finalize_operations S outs batches)
  unfolding finalize_operations
  finalize_operations-Keeps [] batches = lift-Keeps _
  finalize_operations-Keeps ((op, out) ∷ outs) batches =
      >>=-Keeps _ _ (call_scheme-Keeps _)
        λ output. >>=-Keeps _ _ (finalize_operations-Keeps outs _) λ results. lift-Keeps _

  write_results-Keeps :
      (results : List (gates.Operation × List Wire)) → Keeps (write_results S results)
  unfolding write_results
  write_results-Keeps [] = lift-Keeps _
  write_results-Keeps ((op, output) ∷ results) =
      >>=-Keeps _ _ (write_wires-Keeps _ _) λ done. write_results-Keeps results

  module _ {Hash : Type 0} (N : Network Net Hash NetworkElement) where
    do_network_operations-Keeps :
        (ops : List gates.Operation) → Keeps (do_network_operations S N ops)
    unfolding do_network_operations
    do_network_operations-Keeps ops = >>=-Keeps _ _ (begin_operations-Keeps ops) λ outs.
        >>=-Keeps _ _ (call_network-Keeps _) λ sent.
          >>=-Keeps _ _ (call_network-Keeps _) λ received.
            >>=-Keeps _ _ (finalize_operations-Keeps _ _)
              λ results. >>=-Keeps _ _ (write_results-Keeps _) λ done. lift-Keeps _

    pub do_rounds-Keeps :
        (rounds : List (Round gates.Operation)) (totals : ℕ × ℕ)
        → Keeps (do_rounds S N rounds totals)
    unfolding do_rounds
    do_rounds-Keeps [] totals = lift-Keeps _
    do_rounds-Keeps (round ∷ rounds) totals = >>=-Keeps _ _ assume_init-Keeps λ context.
        >>=-Keeps _ _ (do_local_operations-Keeps _)
          λ done. >>=-Keeps _ _ (do_network_operations-Keeps _) λ lens. do_rounds-Keeps rounds _
