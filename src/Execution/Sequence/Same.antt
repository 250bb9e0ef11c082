-- ===== src/Execution/Sequence/Same.antt =====
-- src/mpc/execution.rs: what the steps of a method leave of a machine.
use mpc_core.Prelude.{◌≡◌, ◌∙◌, sym, ap, some, Bool-cases, inl, inr}
use mpc_core.Prelude.{Outcome, unwrap, ok, err, Bool, if◌then◌else◌}
use mpc_core.Prelude.Runs.{lift, gets, modify}
use mpc_core.Scheme.{MpcScheme}
use mpc_core.Execution.{
  ExecutionState, Method, ExecutionContextError, Machine, assert_state, same_state, set_state,
  call_network, assume_init,
}
use mpc_core.Execution.{plan_not_agreed}
use mpc_core.Execution.Methods.{}
use mpc_core.Execution.Sequence.Steps.{of_ok, ok_inj, call_network_ok}
use mpc_core.Execution.Sequence.Local.{pair_of}
use mpc_core.Prelude.{refl, false, true}

module _ {Net : Type 0} (S : MpcScheme Net) where
  open S use {gates, Wire, Context}

  -- The circuit, the network, the context and the wires are as they were.
  pub record Same (s t : Machine S) : Type 0 where
    pub circuit : t.circuit ≡ s.circuit
    pub network : t.network ≡ s.network
    pub context : t.scheme_context ≡ s.scheme_context
    pub wires : t.wire_contents ≡ s.wire_contents

  pub Same-of : (s t : Machine S) → t ≡ s → Same s t
  Same-of s t e = record {
    circuit = ap (λ m. m.circuit) e;
    network = ap (λ m. m.network) e;
    context = ap (λ m. m.scheme_context) e;
    wires = ap (λ m. m.wire_contents) e;
  }

  pub Same-trans : (s t u : Machine S) → Same s t → Same t u → Same s u
  Same-trans s t u h k = record {
    circuit = k.circuit ∙ h.circuit;
    network = k.network ∙ h.network;
    context = k.context ∙ h.context;
    wires = k.wires ∙ h.wires;
  }

  pub lift-Same :
      {A : Type 0} (o : Outcome ExecutionContextError A) (s t : Machine S) (a : A)
      → lift o s ≡ (t, ok a)
      → Same s t
  unfolding lift
  lift-Same o s t a h = Same-of s t (of_ok {s = s} {t = t} h).0

  pub gets-Same :
      {A : Type 0} (f : Machine S → A) (s t : Machine S) (a : A)
      → gets {E = ExecutionContextError} f s ≡ (t, ok a)
      → Same s t × (a ≡ f s)
  unfolding gets
  gets-Same f s t a h = let (e, is) = of_ok {s = s} {t = t} h in (Same-of s t e, sym (ok_inj is))

  pub lifted :
      {A : Type 0} (a b : A) (s t : Machine S)
      → lift {E = ExecutionContextError} (ok a) s ≡ (t, ok b)
      → a ≡ b
  unfolding lift
  lifted a b s t h = ok_inj (of_ok {s = s} {t = t} h).1

  pub assert_state-Same :
      (m : Method) (at : ExecutionState) (s t : Machine S)
      → assert_state S m at s ≡ (t, ok tt)
      → Same s t
  unfolding assert_state
  assert_state-Same m at s t h = elim (Bool-cases (same_state s.execution_state at)) [
    | inl e ↦ Same-of s t (of_ok {s = s} {t = t} (rw e at h)).0
    | inr e ↦ let bad = (of_ok {s = s} {t = t} (rw e at h)).1 in cc
  ]

  pub set_state-Same :
      (next : ExecutionState) (s t : Machine S) → set_state S next s ≡ (t, ok tt) → Same s t
  unfolding set_state modify
  set_state-Same next s t h =
      let is = (of_ok {s = record s { execution_state = next }} {t = t} h).0 in
      record {
        circuit = ap (λ m. m.circuit) is;
        network = ap (λ m. m.network) is;
        context = ap (λ m. m.scheme_context) is;
        wires = ap (λ m. m.wire_contents) is;
      }

  -- The machine after a call of the network, with the network that the call leaves.
  pub after-call :
      {A : Type 0} (f : Net → Net × Outcome (Unit {0}) A) (s u t : Machine S) (a : A)
      → Same (record s { network = u.network }) u
      → call_network S f u ≡ (t, ok a)
      → Same (record s { network = t.network }) t × (f u.network ≡ (t.network, ok a))
  after-call f s u t a k h =
      let (got, is) = call_network_ok S f u t a h in
      (
        record {
          circuit = ap (λ m. m.circuit) is ∙ k.circuit;
          network = refl;
          context = ap (λ m. m.scheme_context) is ∙ k.context;
          wires = ap (λ m. m.wire_contents) is ∙ k.wires;
        },
        pair_of S (f u.network) (sym (ap (λ m. m.network) is)) got,
      )

  -- A step that changes nothing.
  pub after-Same :
      (s u t : Machine S)
      → Same (record s { network = u.network }) u
      → Same u t
      → Same (record s { network = t.network }) t
  after-Same s u t k h = record {
    circuit = h.circuit ∙ k.circuit;
    network = refl;
    context = h.context ∙ k.context;
    wires = h.wires ∙ k.wires;
  }

  pub put_context :
      (s t : Machine S) (c : Context)
      → modify {E = ExecutionContextError}
          (λ (s : Machine S). record s { scheme_context = some c })
          s
        ≡ (t, ok tt)
      → t ≡ record s { scheme_context = some c }
  unfolding modify
  put_context s t c h = (of_ok {s = record s { scheme_context = some c }} {t = t} h).0

  pub at_start : (s t : Machine S) → Same s t → Same (record s { network = t.network }) t
  at_start s t k = record {
    circuit = k.circuit;
    network = refl;
    context = k.context;
    wires = k.wires;
  }

  pub lift_inv :
      {A : Type 0} (o : Outcome ExecutionContextError A) (s t : Machine S) (a : A)
      → lift o s ≡ (t, ok a)
      → o ≡ ok a
  unfolding lift
  lift_inv o s t a h = (of_ok {s = s} {t = t} h).1

  pub no_difference :
      (b : Bool) → (if b then err plan_not_agreed else ok (tt {0})) ≡ ok tt → b ≡ false
  no_difference true h = cc
  no_difference false h = refl

  pub init_of :
      (s t : Machine S) (c d : Context)
      → s.scheme_context ≡ some c
      → assume_init S s ≡ (t, ok d)
      → (t ≡ s) × (d ≡ c)
  unfolding assume_init
  init_of s t c d has h =
      let (e, is) = of_ok {s = s} {t = t} h in
      (e, sym (ok_inj (sym (ap (λ x. unwrap {E = ExecutionContextError} x) has) ∙ is)))
