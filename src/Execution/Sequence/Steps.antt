-- ===== src/Execution/Sequence/Steps.antt =====
-- src/mpc/execution.rs: what a successful step of the executor did to the context and the wires.
use mpc_core.Prelude.{◌≡◌, refl, ◌∙◌, sym, ap, subst, Option, none, some, List, [], ◌∷◌, inl, inr}
use mpc_core.Prelude.{Outcome, ok, err, panic, out_of_fuel, unwrap, Option-cases}
use mpc_core.Prelude.Map
use mpc_core.Prelude.Map.{HashMap}
use mpc_core.Prelude.Runs.{Run, ◌>>=◌, >>=-run_ok, lift, gets, modify}
use mpc_core.Operation.{WireId}
use mpc_core.Scheme.{MpcScheme}
use mpc_core.Execution.{Machine, assume_init, call_scheme, call_network, scheme_failure}
use mpc_core.Execution.Rounds.{read_wires, write_wires, begin_operation, Output}
use mpc_core.Execution.Sequence.{read, write}

pub of_ok :
    {St E A : Type 0} {s t : St} {o : Outcome E A} {a : A}
    → ◌≡◌ {A = St × Outcome E A} (s, o) (t, ok a)
    → (t ≡ s) × (o ≡ ok a)
of_ok h = (sym (ap (λ p. p.0) h), ap (λ p. p.1) h)

pub ok_inj : {E A : Type 0} {a b : A} → ◌≡◌ {A = Outcome E A} (ok a) (ok b) → a ≡ b
ok_inj h = cc

pub scheme_failure_ok :
    {A : Type 0} (o : Outcome (Unit {0}) A) {a : A} → scheme_failure o ≡ ok a → o ≡ ok a
scheme_failure_ok (ok b) h = let same : b ≡ _ = ok_inj h in ap ok same
scheme_failure_ok (err e) h = cc
scheme_failure_ok panic h = cc
scheme_failure_ok out_of_fuel h = cc

unwrap_ok : {E A : Type 0} (o : Option A) {a : A} → unwrap {E = E} o ≡ ok a → o ≡ some a
unwrap_ok none h = cc
unwrap_ok (some b) h = let same : b ≡ _ = ok_inj h in ap some same

-- A chain that ends well, seen from its parts.
pub through :
    {St E A B G : Type 0} (m : Run St E A) (f : A → Run St E B) (u t : St) (b : B)
    → (m >>= f) u ≡ (t, ok b)
    → ((s : St) (a : A) → m u ≡ (s, ok a) → f a s ≡ (t, ok b) → G)
    → G
through m f u t b h k = let (s, a, first, rest) = >>=-run_ok m f u h in k s a first rest

module _ {Net : Type 0} (S : MpcScheme Net) where
  open S use {gates, Wire, Context, NetworkElement, Pending}

  pub call_scheme_ok :
      {A : Type 0} (f : Context → Context × Outcome (Unit {0}) A) (s t : Machine S) (c : Context)
      (a : A)
      → s.scheme_context ≡ some c
      → call_scheme S f s ≡ (t, ok a)
      → ((f c).1 ≡ ok a) × (t ≡ record s { scheme_context = some (f c).0 })
  unfolding call_scheme assume_init ◌>>=◌ modify lift
  call_scheme_ok f s t c a has h =
      let (same, ends) = of_ok (rw has at h) in (scheme_failure_ok (f c).1 ends, same)

  pub read_wires_ok :
      (ids : List WireId) (s t : Machine S) (xs : List Wire)
      → read_wires S ids s ≡ (t, ok xs)
      → (t ≡ s) × (read {E = Unit {0}} s.wire_contents ids ≡ ok xs)
  unfolding read_wires read lift gets ◌>>=◌
  read_wires_ok [] s t xs h = let (same, e) = of_ok h in (same, ap ok (ok_inj e))
  read_wires_ok (id ∷ ids) s t xs h = elim (Option-cases (Map.get s.wire_contents id)) [
    | inl e ↦ let bad = (of_ok (rw e at h)).1 in cc
    | inr (x, e) ↦
        let h' : (read_wires S ids >>= λ ws. lift (ok (x ∷ ws))) s ≡ (t, ok xs) = rw e at h in
        let (s1, ws, others, last) =
          >>=-run_ok (read_wires S ids) (λ ws. lift (ok (x ∷ ws))) s h' in
        let (same, found) = read_wires_ok ids s s1 ws others in
        let (here, is) = of_ok {s = s1} {t = t} last in
        (here ∙ same, rw (e, found) (ap ok (ok_inj is)))
  ]

  pub write_wires_ok :
      (ids : List WireId) (xs : List Wire) (s t : Machine S)
      → write_wires S ids xs s ≡ (t, ok tt)
      → (W : HashMap Wire) × (write {E = Unit {0}} s.wire_contents ids xs ≡ ok W)
        × (t ≡ record s { wire_contents = W })
  unfolding write_wires write lift gets modify ◌>>=◌
  write_wires_ok [] [] s t h = (s.wire_contents, refl, (of_ok h).0)
  write_wires_ok (id ∷ ids) (x ∷ xs) s t h = elim (Option-cases (Map.get s.wire_contents id)) [
    | inl e ↦
        let (W, written, is) =
          write_wires_ok ids xs (record s { wire_contents = Map.put s.wire_contents id x }) t
            (rw e at h) in
        (W, rw e written, is)
    | inr (y, e) ↦ let bad = (of_ok (rw e at h)).1 in cc
  ]
  write_wires_ok [] (x ∷ xs) s t h = let bad = (of_ok h).1 in cc
  write_wires_ok (id ∷ ids) [] s t h = let bad = (of_ok h).1 in cc

  pub begin_operation_ok :
      (op : gates.Operation) (s t : Machine S) (c : Context) (out : Output S)
      → s.scheme_context ≡ some c
      → begin_operation S op s ≡ (t, ok out)
      → (ins : List Wire) × (read {E = Unit {0}} s.wire_contents (gates.inputs op) ≡ ok ins)
        × ((S.do_network_phase c op ins).1 ≡ ok out)
        × (t ≡ record s { scheme_context = some (S.do_network_phase c op ins).0 })
  unfolding begin_operation
  begin_operation_ok op s t c out has h =
      let (s1, ins, reads, calls) = >>=-run_ok (read_wires S (gates.inputs op)) _ s h in
      let (same, found) = read_wires_ok (gates.inputs op) s s1 ins reads in
      let calls' =
        subst (λ m. call_scheme S (λ c. S.do_network_phase c op ins) m ≡ (t, ok out)) same calls in
      let (runs, is) = call_scheme_ok (λ c. S.do_network_phase c op ins) s t c out has calls' in
      (ins, found, runs, is)

  pub call_network_ok :
      {A : Type 0} (f : Net → Net × Outcome (Unit {0}) A) (s t : Machine S) (a : A)
      → call_network S f s ≡ (t, ok a)
      → ((f s.network).1 ≡ ok a) × (t ≡ record s { network = (f s.network).0 })
  unfolding call_network gets ◌>>=◌ modify lift
  call_network_ok f s t a h =
      let (same, ends) = of_ok {s = record s { network = (f s.network).0 }} {t = t} h in
      (scheme_failure_ok (f s.network).1 ends, same)
