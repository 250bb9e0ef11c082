-- ===== src/Execution/Sequence/Local.antt =====
-- src/mpc/execution.rs: the local operations of a round, and the three loops over its network operations,
-- compared with the operations one after the other.
use mpc_core.Prelude.{
  ◌≡◌, refl, ◌∙◌, sym, ap, subst, some, List, [], ◌∷◌, map, length, take, drop, concat,
}
use mpc_core.Prelude.{ok}
use mpc_core.Prelude.Map.{HashMap}
use mpc_core.Prelude.Runs.{lift}
use mpc_core.Scheme.{MpcScheme}
use mpc_core.Execution.{Machine, call_scheme}
use mpc_core.Execution.Rounds.{
  assert_empty, begin_operation, Output, do_local_operation, do_local_operations,
}
use mpc_core.Execution.Sequence.{write, IsFinal, one, each, slices}
use mpc_core.Execution.Sequence.Steps.{
  through, of_ok, call_scheme_ok, write_wires_ok, begin_operation_ok,
}
use mpc_core.Execution.Sequence.Batches.{
  Extends, read-Extends, write-Extends, Begun, Finished, Stored,
}

module _ {Net : Type 0} (S : MpcScheme Net) where
  open S use {gates, Wire, Context, NetworkElement, Pending}

  -- The wires and the context of a machine; the network may be another one.
  abbrev pub Leaves : Context × HashMap Wire → Machine S → Machine S → Type 0
  Leaves memory s t =
      t ≡ record s { scheme_context = some memory.0; wire_contents = memory.1; network = t.network }

  pub to_Leaves :
      (s t : Machine S) (d : Context) (k : HashMap Wire) (net : Net)
      → t ≡ record s { scheme_context = some d; wire_contents = k; network = net }
      → Leaves (d, k) s t
  to_Leaves s t d k net e =
      e
      ∙ ap (λ n. record s { scheme_context = some d; wire_contents = k; network = n })
          (sym (ap (λ m. m.network) e))

  pub Leaves-trans :
      (a b : Context × HashMap Wire) (s u t : Machine S)
      → Leaves a s u
      → Leaves b u t
      → Leaves b s t
  Leaves-trans a b s u t h k =
      k
      ∙ ap
          (λ (m : Machine S). record m {
            scheme_context = some b.0;
            wire_contents = b.1;
            network = t.network;
          })
          h

  pub pair_of : {A B : Type 0} (p : A × B) {a : A} {b : B} → p.0 ≡ a → p.1 ≡ b → p ≡ (a, b)
  pair_of p {a} {b} h k = ap (λ x. (x, p.1)) h ∙ ap (λ y. (a, y)) k

  module _ (F : IsFinal S) where
    -- The three loops have the effect of the operations one after the other.
    pub each_of_loops :
        (outs : List (gates.Operation × Output S)) (batches : List (List NetworkElement))
        (results : List (gates.Operation × List Wire)) (v u w : HashMap Wire) (c d : Context)
        → Begun S v c outs d
        → Finished S F outs batches results
        → Extends v u
        → Stored S u results w
        → each S (slices S outs batches) (c, u) ≡ ok (d, w)
    unfolding each one
    each_of_loops [] batches [] v u w c d begun tt more stored = rw (begun, stored) refl
    each_of_loops ((op, out) ∷ outs) batches ((o, xs) ∷ results) v u w c d (ins, found, runs, begun)
          (e, ends, finished) more (k, written, stored) =
        let received = concat (take (length out.receive_request) batches) in
        let next = (S.do_network_phase c op ins).0 in
        let reads = read-Extends v u (gates.inputs op) ins more found in
        let written' = subst (λ o. write {E = Unit {0}} u (gates.outputs o) xs ≡ ok k) e written in
        let larger : Extends v k =
          λ i x g. write-Extends u k (gates.outputs op) xs written' i x (more i x g) in
        let rest =
          each_of_loops outs (drop (length out.receive_request) batches) results v k w next d begun
            finished larger stored in
        rw (reads, runs, F.leaves next out.pending received, ends, written') rest
    each_of_loops [] batches (r ∷ results) v u w c d begun finished more stored = absurd finished
    each_of_loops (o ∷ outs) batches [] v u w c d begun finished more stored = absurd finished

    do_local_operation-one :
        (op : gates.Operation) (s t : Machine S) (c : Context)
        → s.scheme_context ≡ some c
        → do_local_operation S op s ≡ (t, ok tt)
        → (memory : Context × HashMap Wire) × (one S op [] (c, s.wire_contents) ≡ ok memory)
          × Leaves memory s t
          × (t.network ≡ s.network)
    unfolding do_local_operation lift one
    do_local_operation-one op s t c has h =
        through (begin_operation S op) _ s t tt h λ s1 out begins h1.
          through (lift (assert_empty out.send_request)) _ s1 t tt h1 λ s2 _ empty h2.
            through (lift (assert_empty out.receive_request)) _ s2 t tt h2 λ s3 _ still h3.
              through (call_scheme S (λ d. S.do_finalize_phase d out.pending [])) _ s3 t tt h3
                λ s4 xs ends h4.
                  let (ins, found, runs, is1) = begin_operation_ok S op s s1 c out has begins in
                  let d = (S.do_network_phase c op ins).0 in
                  let is3 : s3 ≡ record s { scheme_context = some d } =
                    (of_ok {s = s2} {t = s3} still).0 ∙ (of_ok {s = s1} {t = s2} empty).0 ∙ is1 in
                  let (ended, is4) =
                    call_scheme_ok S (λ d. S.do_finalize_phase d out.pending []) s3 s4 d xs
                      (ap (λ m. m.scheme_context) is3) ends in
                  let (k, written, is) = write_wires_ok S (gates.outputs op) xs s4 t h4 in
                  let from : s4.wire_contents ≡ s.wire_contents =
                    ap (λ m. m.wire_contents) is4 ∙ ap (λ m. m.wire_contents) is3 in
                  let e = (S.do_finalize_phase d out.pending []).0 in
                  let written' =
                    subst (λ m. write {E = Unit {0}} m (gates.outputs op) xs ≡ ok k) from written in
                  let all : t ≡ record s { scheme_context = some e; wire_contents = k } =
                    is
                    ∙ ap (λ (m : Machine S). record m { wire_contents = k }) is4
                    ∙ ap
                        (λ (m : Machine S). record m { wire_contents = k; scheme_context = some e })
                        is3 in
                  (
                    (e, k),
                    rw (found, runs, ended, written') refl,
                    to_Leaves s t e k s.network all,
                    ap (λ m. m.network) all,
                  )

    pub do_local_operations-each :
        (ops : List gates.Operation) (s t : Machine S) (c : Context)
        → s.scheme_context ≡ some c
        → do_local_operations S ops s ≡ (t, ok tt)
        → (memory : Context × HashMap Wire) × (each S
              (map (λ op. (op, [])) ops)
              (c, s.wire_contents)
            ≡ ok memory)
          × Leaves memory s t
          × (t.network ≡ s.network)
    unfolding do_local_operations lift each
    do_local_operations-each [] s t c has h = (
      (c, s.wire_contents),
      refl,
      to_Leaves s t c s.wire_contents s.network
          ((of_ok {s = s} {t = t} h).0 ∙ ap (λ x. record s { scheme_context = x }) has),
      ap (λ m. m.network) (of_ok {s = s} {t = t} h).0,
    )
    do_local_operations-each (op ∷ ops) s t c has h =
        through (do_local_operation S op) _ s t tt h λ u _ first later.
          let (memory, runs, leaves, here) = do_local_operation-one op s u c has first in
          let (after, rest, leaves', there) =
            do_local_operations-each ops u t memory.0 (ap (λ m. m.scheme_context) leaves) later in
          let wires = ap (λ m. m.wire_contents) leaves in
          let rest' =
            subst (λ m. each S (map (λ op. (op, [])) ops) (memory.0, m) ≡ ok after) wires rest in
          (after, rw runs rest', Leaves-trans memory after s u t leaves leaves', there ∙ here)
