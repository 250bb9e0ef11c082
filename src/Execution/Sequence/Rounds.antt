-- ===== src/Execution/Sequence/Rounds.antt =====
-- src/mpc/execution.rs: the rounds of a phase, compared with the operations one after the other.
use mpc_core.Prelude.{
  ℕ, ◌+◌, ◌≡◌, refl, ◌∙◌, sym, ap, subst, some, List, [], ◌∷◌, ◌++◌, map, concat,
}
use mpc_core.Prelude.{ok}
use mpc_core.Prelude.Map.{HashMap}
use mpc_core.Prelude.Runs.{lift}
use mpc_core.Circuit.{Round}
use mpc_core.Network.{Network}
use mpc_core.Scheme.{MpcScheme}
use mpc_core.Execution.{Machine, assume_init, call_network}
use mpc_core.Execution.Rounds.{
  begin_operations, finalize_operations, write_results, Output, do_local_operations,
  do_network_operations, do_rounds, all_send_requests, all_receive_requests,
}
use mpc_core.Execution.Sequence.{IsFinal, each, slices}
use mpc_core.Execution.Sequence.Steps.{through, of_ok, ok_inj, call_network_ok}
use mpc_core.Execution.Sequence.Batches.{
  Begun, begin_operations-Begun, finalize_operations-Finished, Stored, write_results-Stored,
}
use mpc_core.Execution.Sequence.Local.{
  Leaves, to_Leaves, Leaves-trans, pair_of, each_of_loops, do_local_operations-each,
}

module _ {Net : Type 0} (S : MpcScheme Net) where
  open S use {gates, Wire, Context, NetworkElement, Pending}

  module _ {Hash : Type 0} (N : Network Net Hash NetworkElement) where
    -- Network operations from a context, wires and a network to others, with the lengths of what is sent and
    -- received. `outs` is what the network phase of each operation gives, in order, on its input wires as
    -- they are before the operations. The network is sent their sends and then asked for their
    -- receives; of its batches, each operation gets as many as it asked for, and the operations, each
    -- with its batches, lead to the context and wires one after the other.
    abbrev pub Exchanges :
        List gates.Operation
        → Context × HashMap Wire
        → Net
        → Context × HashMap Wire
        → Net
        → ℕ × ℕ
        → Type 0
    Exchanges ops (c, wires) net memory after lens =
        (outs : List (gates.Operation × Output S)) × (batches : List (List NetworkElement))
        × (d : Context) × (between : Net) × (map (λ o. o.0) outs ≡ ops)
        × Begun S wires c outs d
        × (N.send_objects_many net (concat (map (λ o. o.1.send_request) outs))
            ≡ (between, ok lens.0))
        × (N.recv_objects_many between (concat (map (λ o. o.1.receive_request) outs))
            ≡ (after, ok (batches, lens.1)))
        × (each S (slices S outs batches) (c, wires) ≡ ok memory)

    -- Rounds, from a context, wires, a network and lengths to others: the local operations of a round, which
    -- receive nothing, then its network operations, and then the other rounds.
    abbrev pub Does :
        List (Round gates.Operation)
        → Context × HashMap Wire
        → Net
        → ℕ × ℕ
        → Context × HashMap Wire
        → Net
        → ℕ × ℕ
        → Type 0
    Does [] memory net totals last after lens = (last ≡ memory) × (after ≡ net) × (lens ≡ totals)
    Does (round ∷ rounds) memory net totals last after lens =
        (a : Context × HashMap Wire) × (b : Context × HashMap Wire) × (between : Net) × (sent : ℕ
          × ℕ)
        × (each S (map (λ op. (op, [])) round.local_operations) memory ≡ ok a)
        × Exchanges round.network_operations a net b between sent
        × Does rounds b between (totals.0 + sent.0, totals.1 + sent.1) last after lens

  all_sends :
      (outs : List (gates.Operation × Output S))
      → all_send_requests S outs ≡ concat (map (λ o. o.1.send_request) outs)
  all_sends [] = refl
  all_sends ((op, out) ∷ outs) = ap (λ l. out.send_request ++ l) (all_sends outs)

  all_receives :
      (outs : List (gates.Operation × Output S))
      → all_receive_requests S outs ≡ concat (map (λ o. o.1.receive_request) outs)
  all_receives [] = refl
  all_receives ((op, out) ∷ outs) = ap (λ l. out.receive_request ++ l) (all_receives outs)

  module _ (F : IsFinal S) where
    module _ {Hash : Type 0} (N : Network Net Hash NetworkElement) where
      -- For a scheme whose final phase leaves the context and looks at its other arguments alone: when
      -- `do_network_operations` succeeds, the network phase of each operation has run, in order, on its
      -- input wires as they were; the network was sent what these phases send and then asked for what
      -- they ask for; and the context and the wires are those that the operations give one after the
      -- other, each with as many of the received batches as it asked for, from where the one before it
      -- stopped. The network is the one that the two calls leave, the lengths are theirs, and nothing
      -- else of the machine is changed.
      pub do_network_operations-each :
          (ops : List gates.Operation) (s t : Machine S) (c : Context) (lens : ℕ × ℕ)
          → s.scheme_context ≡ some c
          → do_network_operations S N ops s ≡ (t, ok lens)
          → (memory : Context × HashMap Wire) × Exchanges N ops
              (c, s.wire_contents)
              s.network
              memory
              t.network
              lens
            × Leaves S memory s t
      unfolding do_network_operations lift
      do_network_operations-each ops s t c lens has h =
          through (begin_operations S ops) _ s t lens h λ s1 outs begins h1.
            through (call_network S (λ net. N.send_objects_many net (all_send_requests S outs))) _
              s1 t lens h1
              λ s2 sent sends h2.
                through
                  (call_network S (λ net. N.recv_objects_many net (all_receive_requests S outs))) _
                  s2 t lens h2
                  λ s3 received receives h3.
                    through (finalize_operations S outs received.0) _ s3 t lens h3
                      λ s4 results ends h4.
                        through (write_results S results) _ s4 t lens h4 λ s5 _ writes h5.
                          let send =
                            λ (net : Net). N.send_objects_many net (all_send_requests S outs) in
                          let recv =
                            λ (net : Net). N.recv_objects_many net (all_receive_requests S outs) in
                          let (names, (d, begun, is1)) =
                            begin_operations-Begun S ops s s1 c outs has begins in
                          let (gone, is2) = call_network_ok S send s1 s2 sent sends in
                          let (got, is3) = call_network_ok S recv s2 s3 received receives in
                          let has3 : s3.scheme_context ≡ some d =
                            ap (λ m. m.scheme_context) is3
                            ∙ ap (λ m. m.scheme_context) is2
                            ∙ ap (λ m. m.scheme_context) is1 in
                          let (is4, finished) =
                            finalize_operations-Finished S F outs received.0 s3 s4 d results has3
                              ends in
                          let (w, stored, is5) = write_results-Stored S results s4 s5 writes in
                          let (is6, lens_is) = of_ok {s = s5} {t = t} h5 in
                          let net2 : s2.network ≡ (send s.network).0 =
                            ap (λ m. m.network) is2
                            ∙ ap (λ n. (send n).0) (ap (λ m. m.network) is1) in
                          let net_t : t.network ≡ (recv (send s.network).0).0 =
                            ap (λ m. m.network) is6
                            ∙ ap (λ m. m.network) is5
                            ∙ ap (λ m. m.network) is4
                            ∙ ap (λ m. m.network) is3
                            ∙ ap (λ n. (recv n).0) net2 in
                          let wires : s4.wire_contents ≡ s.wire_contents =
                            ap (λ m. m.wire_contents) is4
                            ∙ ap (λ m. m.wire_contents) is3
                            ∙ ap (λ m. m.wire_contents) is2
                            ∙ ap (λ m. m.wire_contents) is1 in
                          let sent_ok : send s.network ≡ (s2.network, ok lens.0) =
                            pair_of S (send s.network) (sym net2) (
                              sym (ap (λ n. (send n).1) (ap (λ m. m.network) is1))
                              ∙ gone
                              ∙ ap (λ l. ok l.0) (ok_inj lens_is)) in
                          let received_ok : recv s2.network ≡ (t.network, ok (received.0, lens.1)) =
                            pair_of S (recv s2.network)
                              (sym (net_t ∙ ap (λ n. (recv n).0) (sym net2)))
                              (got ∙ ap (λ l. ok (received.0, l.1)) (ok_inj lens_is)) in
                          (
                            (d, w),
                            (
                              outs,
                              received.0,
                              d,
                              s2.network,
                              names,
                              begun,
                              subst (λ l. N.send_objects_many s.network l ≡ (s2.network, ok lens.0))
                                  (all_sends outs) sent_ok,
                              subst
                                  (λ l.
                                    N.recv_objects_many s2.network l
                                    ≡ (t.network, ok (received.0, lens.1)))
                                  (all_receives outs) received_ok,
                              each_of_loops S F outs received.0 results s.wire_contents
                                  s.wire_contents w c d begun finished (λ i x g. g)
                                  (subst (λ m. Stored S m results w) wires stored),
                            ),
                            to_Leaves S s t d w (recv s2.network).0 (
                                is6
                                ∙ is5
                                ∙ ap (λ (m : Machine S). record m { wire_contents = w }) (is4 ∙ is3)
                                ∙ ap
                                    (λ (m : Machine S). record m {
                                      wire_contents = w;
                                      network = (recv s2.network).0;
                                    })
                                    is2
                                ∙ ap
                                    (λ (m : Machine S). record m {
                                      wire_contents = w;
                                      network = (recv s2.network).0;
                                    })
                                    is1),
                          )

      -- For a scheme whose final phase leaves the context and looks at its other arguments alone: when
      -- the rounds of a phase succeed, the context and the wires are those that the operations give one
      -- after the other, round by round and the local ones, which receive nothing, first. The network
      -- operations of a round run and receive as `do_network_operations` is said to, on the context, the
      -- wires and the network that everything before them leaves; the network at the end is the one that
      -- the last of these calls leaves, the lengths are the sums of theirs, from `totals` on, and nothing
      -- else of the machine is changed.
      pub do_rounds-each :
          (rounds : List (Round gates.Operation)) (totals : ℕ × ℕ) (s t : Machine S) (c : Context)
          (lens : ℕ × ℕ)
          → s.scheme_context ≡ some c
          → do_rounds S N rounds totals s ≡ (t, ok lens)
          → (memory : Context × HashMap Wire) × Does N rounds
              (c, s.wire_contents)
              s.network
              totals
              memory
              t.network
              lens
            × Leaves S memory s t
      unfolding do_rounds lift assume_init
      do_rounds-each [] totals s t c lens has h =
          let (is, lens_is) = of_ok {s = s} {t = t} h in
          (
            (c, s.wire_contents),
            (refl, ap (λ m. m.network) is, sym (ok_inj lens_is)),
            to_Leaves S s t c s.wire_contents s.network
                (is ∙ ap (λ x. record s { scheme_context = x }) has),
          )
      do_rounds-each (round ∷ rounds) totals s t c lens has h =
          through (assume_init S) _ s t lens h λ s1 c1 init h1.
            through (do_local_operations S round.local_operations) _ s1 t lens h1 λ s2 _ local h2.
              through (do_network_operations S N round.network_operations) _ s2 t lens h2
                λ s3 sent network h3.
                  let is1 = (of_ok {s = s} {t = s1} init).0 in
                  let local' =
                    subst (λ m. do_local_operations S round.local_operations m ≡ (s2, ok tt)) is1
                      local in
                  let (a, first, leaves_a, same) =
                    do_local_operations-each S F round.local_operations s s2 c has local' in
                  let (b, exchanges, leaves_b) =
                    do_network_operations-each round.network_operations s2 s3 a.0 sent
                      (ap (λ m. m.scheme_context) leaves_a) network in
                  let (last, later, leaves_c) =
                    do_rounds-each rounds _ s3 t b.0 lens (ap (λ m. m.scheme_context) leaves_b)
                      h3 in
                  let exchanges' =
                    subst
                      (λ m.
                        Exchanges N round.network_operations (a.0, m) s.network b s3.network sent)
                      (ap (λ m. m.wire_contents) leaves_a)
                      (subst
                        (λ n.
                          Exchanges N round.network_operations (a.0, s2.wire_contents) n b
                            s3.network sent)
                        same exchanges) in
                  let later' =
                    subst
                      (λ m.
                        Does N rounds (b.0, m) s3.network (totals.0 + sent.0, totals.1 + sent.1)
                          last t.network lens)
                      (ap (λ m. m.wire_contents) leaves_b) later in
                  (
                    last,
                    (a, b, s3.network, sent, first, exchanges', later'),
                    Leaves-trans S b last s s3 t (Leaves-trans S a b s s2 s3 leaves_a leaves_b)
                        leaves_c,
                  )
