-- ===== src/Execution/Sequence/Batches.antt =====
-- src/mpc/execution.rs: the three loops of `do_network_operations`, on the context and the wires.
use mpc_core.Prelude.{
  ◌≡◌, refl, ◌∙◌, sym, ap, subst, some, List, [], ◌∷◌, Bool-cases, inl, inr, map, length, take,
  drop, concat,
}
use mpc_core.Prelude.{ok, >>=-eq-ok, Option-cases, ◌==◌, ==→≡}
use mpc_core.Prelude.Map
use mpc_core.Prelude.Map.{HashMap, get-put}
use mpc_core.Prelude.Runs.{>>=-run_ok, lift}
use mpc_core.Operation.{WireId}
use mpc_core.Scheme.{MpcScheme}
use mpc_core.Execution.{Machine, call_scheme}
use mpc_core.Execution.Rounds.{
  write_wires, begin_operation, begin_operations, finalize_operations, write_results, Output,
}
use mpc_core.Execution.Sequence.{read, write, IsFinal}
use mpc_core.Execution.Sequence.Steps.{
  of_ok, ok_inj, call_scheme_ok, write_wires_ok, begin_operation_ok,
}

-- The wires of the first map have the same contents in the second.
abbrev pub Extends : {V : Type 0} → HashMap V → HashMap V → Type 0
Extends {V} m n = (w : WireId) (x : V) → Map.get m w ≡ some x → Map.get n w ≡ some x

module _ {Wire : Type 0} where
  -- Wires that have contents are read from a larger map too.
  pub read-Extends :
      (m n : HashMap Wire) (ids : List WireId) (xs : List Wire)
      → Extends m n
      → read {E = Unit {0}} m ids ≡ ok xs
      → read {E = Unit {0}} n ids ≡ ok xs
  unfolding read
  read-Extends m n [] xs more h = h
  read-Extends m n (id ∷ ids) xs more h = elim (Option-cases (Map.get m id)) [
    | inl e ↦ let bad = rw e at h in cc
    | inr (x, e) ↦
        let (ys, rest, is) =
          >>=-eq-ok (read {E = Unit {0}} m ids) (λ ys. ok (x ∷ ys)) (rw e at h) in
        rw (more id x e, read-Extends m n ids ys more rest) is
  ]

  -- Outputs are written to new wires.
  pub write-Extends :
      (m n : HashMap Wire) (ids : List WireId) (xs : List Wire)
      → write {E = Unit {0}} m ids xs ≡ ok n
      → Extends m n
  unfolding write
  write-Extends m n [] [] h w x g = subst (λ k. Map.get k w ≡ some x) (ok_inj h) g
  write-Extends m n (id ∷ ids) (y ∷ ys) h w x g = elim (Option-cases (Map.get m id)) [
    | inl e ↦
        let other : Map.get (Map.put m id y) w ≡ some x = elim (Bool-cases (id == w)) [
          | inl same ↦ let bad = ap (Map.get m) (==→≡ id w same) in cc
          | inr apart ↦ rw (get-put m id w y, apart) g
        ] in
        write-Extends (Map.put m id y) n ids ys (rw e at h) w x other
    | inr (z, e) ↦ let bad = rw e at h in cc
  ]
  write-Extends m n [] (y ∷ ys) h w x g = cc
  write-Extends m n (id ∷ ids) [] h w x g = cc

module _ {Net : Type 0} (S : MpcScheme Net) where
  open S use {gates, Wire, Context, NetworkElement, Pending}

  keeps_context :
      (s : Machine S) (c : Context)
      → s.scheme_context ≡ some c
      → s ≡ record s { scheme_context = some c }
  keeps_context s c has = ap (λ x. record s { scheme_context = x }) has

  -- The first loop: every operation reads from the same wires.
  abbrev pub Begun : HashMap Wire → Context → List (gates.Operation × Output S) → Context → Type 0
  Begun wires c [] d = d ≡ c
  Begun wires c ((op, out) ∷ outs) d =
      (ins : List Wire) × (read {E = Unit {0}} wires (gates.inputs op) ≡ ok ins)
      × ((S.do_network_phase c op ins).1 ≡ ok out)
      × Begun wires (S.do_network_phase c op ins).0 outs d

  pub begin_operations-Begun :
      (ops : List gates.Operation) (s t : Machine S) (c : Context)
      (outs : List (gates.Operation × Output S))
      → s.scheme_context ≡ some c
      → begin_operations S ops s ≡ (t, ok outs)
      → (map (λ o. o.0) outs ≡ ops)
        × ((d : Context) × Begun s.wire_contents c outs d
            × (t ≡ record s { scheme_context = some d }))
  unfolding begin_operations lift
  begin_operations-Begun [] s t c outs has h =
      let (same, is) = of_ok h in
      subst
        (λ l.
          (map (λ o. o.0) l ≡ [])
          × ((d : Context) × Begun s.wire_contents c l d
              × (t ≡ record s { scheme_context = some d })))
        (ok_inj is) (refl, (c, refl, same ∙ keeps_context s c has))
  begin_operations-Begun (op ∷ ops) s t c outs has h =
      let (s1, out, begins, h1) = >>=-run_ok (begin_operation S op) _ s h in
      let (s2, rest, later, h2) = >>=-run_ok (begin_operations S ops) _ s1 h1 in
      let (ins, found, runs, is) = begin_operation_ok S op s s1 c out has begins in
      let d = (S.do_network_phase c op ins).0 in
      let later' = subst (λ m. begin_operations S ops m ≡ (s2, ok rest)) is later in
      let (names, (e, begun, last)) =
        begin_operations-Begun ops (record s { scheme_context = some d }) s2 d rest refl later' in
      let (same, are) = of_ok h2 in
      subst
        (λ l.
          (map (λ o. o.0) l ≡ op ∷ ops)
          × ((d : Context) × Begun s.wire_contents c l d
              × (t ≡ record s { scheme_context = some d })))
        (ok_inj are) (ap (λ l. op ∷ l) names, (e, (ins, found, runs, begun), same ∙ last))

  module _ (F : IsFinal S) where
    -- The second loop.
    abbrev pub Finished :
        List (gates.Operation × Output S)
        → List (List NetworkElement)
        → List (gates.Operation × List Wire)
        → Type 0
    Finished [] batches [] = Unit
    Finished ((op, out) ∷ outs) batches ((o, xs) ∷ results) =
        (o ≡ op)
        × (F.finalize out.pending (concat (take (length out.receive_request) batches)) ≡ ok xs)
        × Finished outs (drop (length out.receive_request) batches) results
    Finished [] batches (r ∷ results) = ⊥
    Finished (o ∷ outs) batches [] = ⊥

    pub finalize_operations-Finished :
        (outs : List (gates.Operation × Output S)) (batches : List (List NetworkElement))
        (s t : Machine S) (c : Context) (results : List (gates.Operation × List Wire))
        → s.scheme_context ≡ some c
        → finalize_operations S outs batches s ≡ (t, ok results)
        → (t ≡ s) × Finished outs batches results
    unfolding finalize_operations lift
    finalize_operations-Finished [] batches s t c results has h =
        let (same, is) = of_ok h in (same, subst (Finished [] batches) (ok_inj is) tt)
    finalize_operations-Finished ((op, out) ∷ outs) batches s t c results has h =
        let n = length out.receive_request in
        let received = concat (take n batches) in
        let call = λ (d : Context). S.do_finalize_phase d out.pending received in
        let (s1, xs, ends, h1) = >>=-run_ok (call_scheme S call) _ s h in
        let (s2, rest, later, h2) =
          >>=-run_ok (finalize_operations S outs (drop n batches)) _ s1 h1 in
        let pure = F.leaves c out.pending received in
        let (runs, is) = call_scheme_ok S call s s1 c xs has ends in
        let back : s1 ≡ s =
          is
          ∙ ap (λ r. record s { scheme_context = some r.0 }) pure
          ∙ sym (keeps_context s c has) in
        let later' =
          subst (λ m. finalize_operations S outs (drop n batches) m ≡ (s2, ok rest)) back later in
        let (stays, all) =
          finalize_operations-Finished outs (drop n batches) s s2 c rest has later' in
        let (same, are) = of_ok {s = s2} {t = t} h2 in
        (
          same ∙ stays,
          subst (Finished ((op, out) ∷ outs) batches) (ok_inj are)
              (refl, sym (ap (λ r. r.1) pure) ∙ runs, all),
        )

  -- The third loop.
  abbrev pub Stored : HashMap Wire → List (gates.Operation × List Wire) → HashMap Wire → Type 0
  Stored m [] n = n ≡ m
  Stored m ((op, xs) ∷ results) n =
      (k : HashMap Wire) × (write {E = Unit {0}} m (gates.outputs op) xs ≡ ok k)
      × Stored k results n

  pub write_results-Stored :
      (results : List (gates.Operation × List Wire)) (s t : Machine S)
      → write_results S results s ≡ (t, ok tt)
      → (n : HashMap Wire) × Stored s.wire_contents results n × (t ≡ record s { wire_contents = n })
  unfolding write_results lift
  write_results-Stored [] s t h = (s.wire_contents, refl, (of_ok h).0)
  write_results-Stored ((op, xs) ∷ results) s t h =
      let (s1, done, writes, h1) = >>=-run_ok (write_wires S (gates.outputs op) xs) _ s h in
      let (k, written, is) = write_wires_ok S (gates.outputs op) xs s s1 writes in
      let h2 = subst (λ m. write_results S results m ≡ (t, ok tt)) is h1 in
      let (n, stored, last) = write_results-Stored results (record s { wire_contents = k }) t h2 in
      (n, (k, written, stored), last)
