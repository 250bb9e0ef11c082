-- ===== src/Execution/Sequence/Methods.antt =====
-- src/mpc/execution.rs: the public methods, and a run of all of them, compared with the operations one
-- after the other.
use mpc_core.Prelude.{ℕ, ◌≡◌, ◌∙◌, sym, ap, subst, some, List, []}
use mpc_core.Prelude.{Outcome, ok, err, Bool, ltb, length, if◌then◌else◌}
use mpc_core.Prelude.Map.{HashMap}
use mpc_core.Prelude.Runs.{◌>>=◌, ◌>>◌, lift, gets, modify}
use mpc_core.Operation.{WireId}
use mpc_core.Circuit.{MpcCircuit, Round, get_input_operation_wire_ids_of_party}
use mpc_core.Network.{Network}
use mpc_core.Scheme.{MpcScheme}
use mpc_core.Execution.{
  ExecutionState, Method, Machine, Act, execution_context, assert_state, set_state, assume_init,
}
use mpc_core.Execution.{
  do_offline_method, prepare_input_method, do_online_method, handshaked, finished_offline,
  ready_online, finished, not_enough_inputs,
}
use mpc_core.Execution.Methods.{
  handshake, do_offline, prepare_input, do_online, mark_inputs, no_inputs_yet, no_error,
}
use mpc_core.Execution.Rounds.{do_rounds}
use mpc_core.Execution.Whole.{run_all}
use mpc_core.Execution.Sequence.{IsFinal}
use mpc_core.Execution.Sequence.Steps.{through}
use mpc_core.Execution.Sequence.Rounds.{Does, do_rounds-each}
use mpc_core.Execution.Sequence.Same.{
  Same-of, Same-trans, lift-Same, gets-Same, lifted, assert_state-Same, set_state-Same, put_context,
  init_of,
}
use mpc_core.Execution.Sequence.Shakes.{Shakes, handshake-Same}

module _ {Net Hash : Type 0} (S : MpcScheme Net) (F : IsFinal S)
    (N : Network Net Hash (S.NetworkElement))
    (digest : MpcCircuit (S.gates.Operation) → Outcome (Unit {0}) Hash)
    (same : Hash → Hash → Bool) where
  open S use {gates, Wire, Context, Input}

  -- The body of `do_offline` and of `do_online`.
  abbrev phase :
      Method
      → ExecutionState
      → ExecutionState
      → (MpcCircuit gates.Operation → List (Round gates.Operation))
      → Act S (ℕ × ℕ)
  phase method before next rounds_of = do
    assert_state S method before
    circuit ← gets (λ s. s.circuit)
    totals ← do_rounds S N (rounds_of circuit) (0, 0)
    set_state S next
    lift (ok totals)

  phase-Does :
      (method : Method) (before next : ExecutionState)
      (rounds_of : MpcCircuit gates.Operation → List (Round gates.Operation)) (s t : Machine S)
      (c : Context) (lens : ℕ × ℕ)
      → s.scheme_context ≡ some c
      → phase method before next rounds_of s ≡ (t, ok lens)
      → (memory : Context × HashMap Wire) × Does S N
          (rounds_of s.circuit)
          (c, s.wire_contents)
          s.network
          (0, 0)
          memory
          t.network
          lens
        × (t.circuit ≡ s.circuit)
        × (t.scheme_context ≡ some memory.0)
        × (t.wire_contents ≡ memory.1)
  phase-Does method before next rounds_of s t c lens has h =
      through (assert_state S method before) _ s t lens h λ s1 _ asserted h1.
        through (gets (λ s. s.circuit)) _ s1 t lens h1 λ s2 circuit got h2.
          through (do_rounds S N (rounds_of circuit) (0, 0)) _ s2 t lens h2 λ s3 totals ran h3.
            through (set_state S next) _ s3 t lens h3 λ s4 _ moved h4.
              let k1 = assert_state-Same S method before s s1 asserted in
              let (k2, is) = gets-Same S (λ s. s.circuit) s1 s2 circuit got in
              let k = Same-trans S s s1 s2 k1 k2 in
              let (memory, does, leaves) =
                do_rounds-each S F N (rounds_of circuit) (0, 0) s2 s3 c totals (k.context ∙ has)
                  ran in
              let last =
                Same-trans S s3 s4 t (set_state-Same S next s3 s4 moved)
                  (lift-Same S (ok totals) s4 t lens h4) in
              let from =
                subst
                  (λ w.
                    Does S N (rounds_of circuit) (c, w) s2.network (0, 0) memory s3.network totals)
                  k.wires does in
              let on =
                subst
                  (λ n.
                    Does S N (rounds_of circuit) (c, s.wire_contents) n (0, 0) memory s3.network
                      totals)
                  k.network from in
              let of =
                subst
                  (λ d.
                    Does S N (rounds_of d) (c, s.wire_contents) s.network (0, 0) memory s3.network
                      totals)
                  (is ∙ k1.circuit) on in
              let to =
                subst
                  (λ n.
                    Does S N (rounds_of s.circuit) (c, s.wire_contents) s.network (0, 0) memory n
                      totals)
                  (sym last.network) of in
              (
                memory,
                subst
                    (λ l.
                      Does S N (rounds_of s.circuit) (c, s.wire_contents) s.network (0, 0) memory
                        t.network l)
                    (lifted S totals lens s4 t h4) to,
                last.circuit ∙ ap (λ m. m.circuit) leaves ∙ k.circuit,
                last.context ∙ ap (λ m. m.scheme_context) leaves,
                last.wires ∙ ap (λ m. m.wire_contents) leaves,
              )

  prepare_input-Same :
      (ins : List (WireId × Input)) (s t : Machine S) (c : Context)
      → s.scheme_context ≡ some c
      → prepare_input S N digest same ins s ≡ (t, ok tt)
      → (t.scheme_context ≡ some (S.prepare_user_input c ins))
        × (t.circuit ≡ s.circuit)
        × (t.wire_contents ≡ s.wire_contents)
        × (t.network ≡ s.network)
  unfolding prepare_input
  prepare_input-Same ins s t c has h =
      through (assert_state S prepare_input_method finished_offline) _ s t tt h λ s1 _ asserted h1.
        through (gets (λ s. s.circuit)) _ s1 t tt h1 λ s2 circuit got h2.
          through (gets (λ s. s.network)) _ s2 t tt h2 λ s3 network net h3.
            through
              (lift
                (no_error (get_input_operation_wire_ids_of_party gates circuit (N.my_id network))))
              _ s3 t tt h3
              λ s4 wires found h4.
                through (lift (mark_inputs (no_inputs_yet wires) ins)) _ s4 t tt h4
                  λ s5 marked marks h5.
                    through
                      (lift (
                        if ltb (length ins) (length (no_inputs_yet wires))
                        then err not_enough_inputs
                        else ok tt))
                      _ s5 t tt h5
                      λ s6 _ enough h6. through (assume_init S) _ s6 t tt h6 λ s7 d init h7.
                        through
                          (modify
                            (λ s. record s { scheme_context = some (S.prepare_user_input d ins) }))
                          _ s7 t tt h7
                          λ s8 _ put moved.
                            let k2 =
                              Same-trans S s s1 s2
                                (assert_state-Same S prepare_input_method finished_offline s s1
                                  asserted)
                                (gets-Same S (λ s. s.circuit) s1 s2 circuit got).0 in
                            let k4 =
                              Same-trans S s s3 s4
                                (Same-trans S s s2 s3 k2
                                  (gets-Same S (λ s. s.network) s2 s3 network net).0)
                                (lift-Same S
                                  (no_error (
                                    get_input_operation_wire_ids_of_party gates circuit
                                      (N.my_id network)))
                                  s3 s4 wires found) in
                            let k6 =
                              Same-trans S s s5 s6
                                (Same-trans S s s4 s5 k4 (
                                  lift-Same S (mark_inputs (no_inputs_yet wires) ins) s4 s5 marked
                                    marks))
                                (lift-Same S
                                  (if ltb (length ins) (length (no_inputs_yet wires))
                                    then err not_enough_inputs
                                    else ok tt)
                                  s5 s6 tt enough) in
                            let (is7, same_context) = init_of S s6 s7 c d (k6.context ∙ has) init in
                            let k7 = Same-trans S s s6 s7 k6 (Same-of S s6 s7 is7) in
                            let is = put_context S s7 s8 (S.prepare_user_input d ins) put in
                            let last = set_state-Same S ready_online s8 t moved in
                            (
                              last.context
                                  ∙ ap (λ m. m.scheme_context) is
                                  ∙ ap (λ c. some (S.prepare_user_input c ins)) same_context,
                              last.circuit ∙ ap (λ m. m.circuit) is ∙ k7.circuit,
                              last.wires ∙ ap (λ m. m.wire_contents) is ∙ k7.wires,
                              last.network ∙ ap (λ m. m.network) is ∙ k7.network,
                            )

  -- For a scheme whose final phase leaves the context and looks at its other arguments alone: when a run
  -- of the four methods succeeds, there was a handshake on the network, as `Shakes` says, that
  -- established a context; the offline rounds were done as `Does` says, from that context, no wires and
  -- the network as the handshake leaves it; and the online rounds from the context, the wires and the
  -- network that these leave, with the user's inputs in the context. In each round, in order, the local
  -- operations receive nothing, the network is sent what the network phases of the others send and is
  -- then asked for what they ask for, each gets as many of the batches that come as it asked for, and
  -- the operations have their effects one after the other. The context, the wires and the network at the
  -- end are the last ones, and the lengths are the sums of the online rounds.
  pub run_all-Does :
      (c : MpcCircuit gates.Operation) (net : Net) (ins : List (WireId × Input)) (t : Machine S)
      (lens : ℕ × ℕ)
      → run_all S N digest same ins (execution_context S c net) ≡ (t, ok lens)
      → (context : Context) × (shaken : Net) × (middle : Context × HashMap Wire) × (between : Net)
        × (offline_lens : ℕ × ℕ) × (last : Context × HashMap Wire) × Shakes S N digest same c net
            context shaken
        × Does S N c.offline_rounds (context, []) shaken (0, 0) middle between offline_lens
        × Does S N c.online_rounds
            (S.prepare_user_input middle.0 ins, middle.1)
            between
            (0, 0)
            last
            t.network
            lens
        × (t.scheme_context ≡ some last.0)
        × (t.wire_contents ≡ last.1)
  unfolding run_all do_offline do_online
  run_all-Does c net ins t lens h =
      let s = execution_context S c net in
      through (handshake S N digest same) _ s t lens h λ s1 lens1 shakes h1.
        through (do_offline S N digest same) _ s1 t lens h1 λ s2 lens2 offline h2.
          through (prepare_input S N digest same ins) _ s2 t lens h2 λ s3 _ prepares online.
            let (context, has, circ, bare, shaken) =
              handshake-Same S N digest same s s1 lens1 shakes in
            let (middle, off, circ2, has2, wires2) =
              phase-Does do_offline_method handshaked finished_offline (λ d. d.offline_rounds) s1 s2
                context lens2 has offline in
            let (has3, circ3, wires3, net3) = prepare_input-Same ins s2 s3 middle.0 has2 prepares in
            let with = S.prepare_user_input middle.0 ins in
            let (last, on, _, has4, wires4) =
              phase-Does do_online_method ready_online finished (λ d. d.online_rounds) s3 t with
                lens has3 online in
            let off' =
              subst
                (λ d.
                  Does S N d.offline_rounds (context, []) s1.network (0, 0) middle s2.network lens2)
                circ
                (subst
                  (λ w.
                    Does S N s1.circuit.offline_rounds (context, w) s1.network (0, 0) middle
                      s2.network lens2)
                  bare off) in
            let on' =
              subst
                (λ d.
                  Does S N d.online_rounds (with, middle.1) s3.network (0, 0) last t.network lens)
                (circ3 ∙ circ2 ∙ circ)
                (subst
                  (λ w.
                    Does S N s3.circuit.online_rounds (with, w) s3.network (0, 0) last t.network
                      lens)
                  (wires3 ∙ wires2) on) in
            let on'' =
              subst (λ n. Does S N c.online_rounds (with, middle.1) n (0, 0) last t.network lens)
                net3 on' in
            (context, s1.network, middle, s2.network, lens2, last, shaken, off', on'', has4, wires4)
