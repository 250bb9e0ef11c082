-- ===== src/Execution/Sequence/Shakes.antt =====
-- src/mpc/execution.rs, `handshake`: what it does on the network, and what it leaves of the machine.
use mpc_core.Prelude.{ℕ, ◌≡◌, ◌∙◌, sym, ap, subst, some, List, map, keep, not, ◌==◌}
use mpc_core.Prelude.{Outcome, ok, err, Bool, if◌then◌else◌}
use mpc_core.Prelude.Runs.{lift, gets, modify}
use mpc_core.Circuit.{MpcCircuit}
use mpc_core.Network.{Network, ReceiveRequest, receive_request}
use mpc_core.Scheme.{MpcScheme}
use mpc_core.Execution.{Machine, assert_state, set_state, call_network, scheme_failure}
use mpc_core.Execution.{handshake_method, new_born, handshaked, plan_not_agreed}
use mpc_core.Execution.Methods.{handshake, some_differs, range_from}
use mpc_core.Execution.Sequence.Steps.{through, scheme_failure_ok}
use mpc_core.Prelude.{false}
use mpc_core.Execution.Sequence.Same.{
  Same-trans, lift-Same, gets-Same, lifted, lift_inv, assert_state-Same, set_state-Same, after-call,
  after-Same, put_context, at_start, no_difference,
}

module _ {Net Hash : Type 0} (S : MpcScheme Net) (N : Network Net Hash (S.NetworkElement))
    (digest : MpcCircuit (S.gates.Operation) → Outcome (Unit {0}) Hash)
    (same : Hash → Hash → Bool) where
  open S use {gates, Wire, Context}

  -- The requests for one object of every other player.
  abbrev pub from_others : Net → List ReceiveRequest
  from_others net =
      map (λ from. receive_request from 1)
        (keep (λ from. not (from == N.my_id net)) (range_from 0 (N.n_players net)))

  -- A handshake on the network: the digest of the circuit is sent, a digest is asked of every other
  -- player, none that comes differs, and the context is established on the network that this leaves.
  abbrev pub Shakes : MpcCircuit gates.Operation → Net → Context → Net → Type 0
  Shakes circuit net context after =
      (hash : Hash) × (sent : Net) × (sent_len : ℕ) × (met : Net) × (hashes : List (List Hash))
      × (received_len : ℕ) × (digest circuit ≡ ok hash)
      × (N.broadcast_hash net hash ≡ (sent, ok sent_len))
      × (N.recv_hashes sent (from_others sent) ≡ (met, ok (hashes, received_len)))
      × (some_differs same hash hashes ≡ ok false)
      × (S.establish_context met circuit ≡ (after, ok context))

  pub to_Shakes :
      (circuit d : MpcCircuit gates.Operation) (hash : Hash) (differs : Bool)
      (net start sent asked from met here there after : Net) (sent_len received_len : ℕ)
      (hashes : List (List Hash)) (context : Context)
      → circuit ≡ d
      → digest circuit ≡ ok hash
      → start ≡ net
      → N.broadcast_hash start hash ≡ (sent, ok sent_len)
      → asked ≡ sent
      → from ≡ sent
      → N.recv_hashes from (from_others asked) ≡ (met, ok (hashes, received_len))
      → some_differs same hash hashes ≡ ok differs
      → differs ≡ false
      → here ≡ met
      → S.establish_context here circuit ≡ (there, ok context)
      → there ≡ after
      → Shakes d net context after
  to_Shakes circuit d hash differs net start sent asked from met here there after sent_len
        received_len hashes context circ digests at sends asks still receives compares agreed ready
        establishes ends =
      (
        hash,
        sent,
        sent_len,
        met,
        hashes,
        received_len,
        subst (λ c. digest c ≡ ok hash) circ digests,
        subst (λ n. N.broadcast_hash n hash ≡ (sent, ok sent_len)) at sends,
        subst (λ n. N.recv_hashes sent (from_others n) ≡ (met, ok (hashes, received_len))) asks
            (subst (λ n. N.recv_hashes n (from_others asked) ≡ (met, ok (hashes, received_len)))
              still receives),
        compares ∙ ap ok agreed,
        subst (λ c. S.establish_context met c ≡ (after, ok context)) circ
            (subst (λ n. S.establish_context n circuit ≡ (after, ok context)) ready
              (establishes ∙ ap (λ n. (n, ok context)) ends)),
      )

  pub handshake-Same :
      (s t : Machine S) (lens : ℕ × ℕ)
      → handshake S N digest same s ≡ (t, ok lens)
      → (context : Context) × (t.scheme_context ≡ some context)
        × (t.circuit ≡ s.circuit)
        × (t.wire_contents ≡ s.wire_contents)
        × Shakes s.circuit s.network context t.network
  unfolding handshake
  handshake-Same s t lens h =
      through (assert_state S handshake_method new_born) _ s t lens h λ s1 _ asserted h1.
        through (gets (λ s. s.circuit)) _ s1 t lens h1 λ s2 circuit got h2.
          through (lift (scheme_failure (digest circuit))) _ s2 t lens h2 λ s3 hash digests h3.
            through (call_network S (λ net. N.broadcast_hash net hash)) _ s3 t lens h3
              λ s4 sent sends h4.
                through (gets (λ s. s.network)) _ s4 t lens h4 λ s5 network net h5.
                  let players =
                    keep (λ from. not (from == N.my_id network))
                      (range_from 0 (N.n_players network)) in
                  through
                    (call_network S
                      (λ net. N.recv_hashes net (map (λ from. receive_request from 1) players)))
                    _ s5 t lens h5
                    λ s6 received receives h6.
                      through (lift (some_differs same hash received.0)) _ s6 t lens h6
                        λ s7 differs compares h7.
                          through (lift (if differs then err plan_not_agreed else ok tt)) _ s7 t
                            lens h7
                            λ s8 _ agreed h8.
                              through (call_network S (λ net. S.establish_context net circuit)) _ s8
                                t lens h8
                                λ s9 context establishes h9.
                                  through (modify (λ s. record s { scheme_context = some context }))
                                    _ s9 t lens h9
                                    λ s10 _ put h10.
                                      through (set_state S handshaked) _ s10 t lens h10
                                        λ s11 _ moved h11.
                                          let k1 =
                                            assert_state-Same S handshake_method new_born s s1
                                              asserted in
                                          let (g2, is2) =
                                            gets-Same S (λ s. s.circuit) s1 s2 circuit got in
                                          let k3 =
                                            Same-trans S s s2 s3 (Same-trans S s s1 s2 k1 g2) (
                                              lift-Same S (scheme_failure (digest circuit)) s2 s3
                                                hash digests) in
                                          let (k4, sends') =
                                            after-call S (λ net. N.broadcast_hash net hash) s s3 s4
                                              sent (at_start S s s3 k3) sends in
                                          let (g5, is5) =
                                            gets-Same S (λ s. s.network) s4 s5 network net in
                                          let (k6, receives') =
                                            after-call S
                                              (λ net.
                                                N.recv_hashes net
                                                  (map (λ from. receive_request from 1) players))
                                              s s5 s6 received (after-Same S s s4 s5 k4 g5)
                                              receives in
                                          let g8 =
                                            Same-trans S s6 s7 s8
                                              (lift-Same S (some_differs same hash received.0) s6 s7
                                                differs compares)
                                              (lift-Same S
                                                (if differs then err plan_not_agreed else ok tt) s7
                                                s8 tt agreed) in
                                          let (k9, establishes') =
                                            after-call S (λ net. S.establish_context net circuit) s
                                              s8 s9 context (after-Same S s s6 s8 k6 g8)
                                              establishes in
                                          let is = put_context S s9 s10 context put in
                                          let last =
                                            Same-trans S s10 s11 t
                                              (set_state-Same S handshaked s10 s11 moved)
                                              (lift-Same S (ok (sent, received.1)) s11 t lens
                                                h11) in
                                          let circ = is2 ∙ k1.circuit in
                                          let total = lifted S (sent, received.1) lens s11 t h11 in
                                          (
                                            context,
                                            last.context ∙ ap (λ m. m.scheme_context) is,
                                            last.circuit ∙ ap (λ m. m.circuit) is ∙ k9.circuit,
                                            last.wires ∙ ap (λ m. m.wire_contents) is ∙ k9.wires,
                                            to_Shakes circuit s.circuit hash differs s.network
                                                s3.network s4.network network s5.network s6.network
                                                s8.network s9.network t.network sent received.1
                                                received.0 context circ
                                                (scheme_failure_ok (digest circuit) (
                                                  lift_inv S (scheme_failure (digest circuit)) s2 s3
                                                    hash digests))
                                                k3.network sends' is5 g5.network receives'
                                                (lift_inv S (some_differs same hash received.0) s6
                                                  s7 differs compares)
                                                (no_difference S differs (
                                                  lift_inv S
                                                    (if differs then err plan_not_agreed else ok tt)
                                                    s7 s8 tt agreed))
                                                g8.network establishes'
                                                (sym (last.network ∙ ap (λ m. m.network) is)),
                                          )
