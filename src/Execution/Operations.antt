-- ===== src/Execution/Operations.antt =====
-- src/mpc/execution.rs: the operations of a round run, on a scheme that keeps its contract and an honest
-- network, without a panic, and give their wires values.
use mpc_core.Prelude.{ℕ, zero, suc, ◌≤◌, ◌≡◌, refl, ◌∙◌, sym, ap, subst, true}
use mpc_core.Prelude.{
  List, [], ◌∷◌, ◌++◌, length, concat, count, All, ◌∈◌, arith, append_assoc, append-nil,
}
use mpc_core.Prelude.{
  unwrap, Outcome, ok, err, panic, out_of_fuel, Option, some, none, take, drop, map, count-append,
  All-append,
}
use mpc_core.Prelude.Runs.{◌>>=◌, lift, gets, modify}
use mpc_core.Operation.{WireId}
use mpc_core.Network.{Network, Matches, ReceiveRequest}
use mpc_core.Scheme.{MpcScheme}
use mpc_core.Circuit.Graph.Producers.{all_outputs}
use mpc_core.Circuit.New.Order.{IsOrdered}
use mpc_core.Execution.{
  Machine, ExecutionContextError, call_scheme, call_network, assume_init, scheme_failure,
}
use mpc_core.Execution.Rounds.{begin_operation, do_local_operation, do_local_operations}
use mpc_core.Execution.Rounds.{
  begin_operations, finalize_operations, write_results, do_network_operations, Output,
  all_receive_requests, assert_empty,
}
use mpc_core.Execution.Contract.{Safe, >>=-Safe, IsContract, IsHonest}
use mpc_core.Execution.Wires.{Written, call_scheme-Safe, read_wires-Safe, write_wires-Safe}
use mpc_core.Execution.Outputs.{all_outputs-append, all_outputs-snoc}

-- Batches that match requests split where the requests do.
Matches-append :
    {T : Type 0} (rs qs : List ReceiveRequest) (bs : List (List T))
    → Matches (rs ++ qs) bs
    → Matches rs (take (length rs) bs) × Matches qs (drop (length rs) bs)
Matches-append [] qs bs m = (tt, m)
Matches-append (r ∷ rs) qs [] m = absurd m
Matches-append (r ∷ rs) qs (b ∷ bs) m = let (x, y) = Matches-append rs qs bs m.1 in ((m.0, x), y)

All-split : {T : Type 0} (P : T → Type 0) (xs ys : List T) → All P (xs ++ ys) → All P xs × All P ys
All-split P [] ys h = (tt, h)
All-split P (x ∷ xs) ys h = let (a, b) = All-split P xs ys h.1 in ((h.0, a), b)

All-take :
    {T : Type 0} (P : T → Type 0) (n : ℕ) (bs : List (List T))
    → All P (concat bs)
    → All P (concat (take n bs)) × All P (concat (drop n bs))
All-take P zero bs h = (tt, h)
All-take P (suc n) [] h = (tt, tt)
All-take P (suc n) (b ∷ bs) h =
    let (x, y) = All-split P b (concat bs) h in
    let (l, r) = All-take P n bs y in (All-append P b (concat (take n bs)) x l, r)

module _ {Net : Type 0} (S : MpcScheme Net) (IsValue : S.Wire → Type 0)
    (IsElement : S.NetworkElement → Type 0) (K : IsContract S IsValue IsElement) where
  open S use {gates, Wire, Context, NetworkElement, do_finalize_phase}

  -- What the network phase of an operation promises of its last phase.
  abbrev Finishes : gates.Operation → Output S → Type 0
  Finishes op out =
      (later : Context) (batches : List (List NetworkElement))
      → Matches out.receive_request batches
      → All IsElement (concat batches)
      → Safe (λ ws c. (length ws ≡ length (gates.outputs op)) × All IsValue ws)
          (do_finalize_phase later out.pending (concat batches))

  -- What it promises altogether.
  abbrev Begun : gates.Operation → Output S → Type 0
  Begun op out =
      (gates.is_operation_local op ≡ true → (out.send_request ≡ []) × (out.receive_request ≡ []))
      × Finishes op out

  begin_operation-Safe :
      (ws : List WireId) (op : gates.Operation) (s : Machine S)
      → Written S IsValue ws s
      → ((w : WireId) → w ∈ gates.inputs op → w ∈ ws)
      → Safe (λ out t. Written S IsValue ws t × (Begun op out)) (begin_operation S op s)
  unfolding begin_operation
  begin_operation-Safe ws op s v h =
      >>=-Safe
        (λ vs t. Written S IsValue ws t × (length vs ≡ length (gates.inputs op)) × All IsValue vs) _
        _ _ s (read_wires-Safe S IsValue ws (gates.inputs op) s v h)
        (λ vs t (p, n, a).
          call_scheme-Safe S IsValue (Begun op) ws t _ p (λ c. K.phases c op vs n a))

  pub lift_ok :
      {A : Type 0} (P : A → Machine S → Type 0) (a : A) (s : Machine S)
      → P a s
      → Safe P (lift {E = ExecutionContextError} (ok a) s)
  unfolding Safe lift
  lift_ok P a s p = p

  assert_empty-Safe :
      {A : Type 0} (xs : List A) (P : Machine S → Type 0) (s : Machine S)
      → xs ≡ []
      → P s
      → Safe (λ _ t. P t) (lift (assert_empty xs) s)
  unfolding Safe lift
  assert_empty-Safe [] P s e p = p
  assert_empty-Safe (x ∷ xs) P s e p = cc

  -- The post-condition of an operation's last phase, with the wires that are there.
  abbrev Ended : List WireId → gates.Operation → List Wire → Machine S → Type 0
  Ended ws op xs t =
      Written S IsValue ws t × ((length xs ≡ length (gates.outputs op)) × All IsValue xs)

  finalize-Safe :
      (ws : List WireId) (op : gates.Operation) (out : Output S)
      (batches : List (List NetworkElement)) (s : Machine S)
      → Written S IsValue ws s
      → Finishes op out
      → Matches out.receive_request batches
      → All IsElement (concat batches)
      → Safe
          (Ended ws op)
          (call_scheme S (λ context. do_finalize_phase context out.pending (concat batches)) s)
  finalize-Safe ws op out batches s v fin m a =
      call_scheme-Safe S IsValue (λ xs. (length xs ≡ length (gates.outputs op)) × All IsValue xs) ws
        s _ v (λ c. fin c batches m a)

  do_local_operation-Safe :
      (ws : List WireId) (op : gates.Operation) (s : Machine S)
      → Written S IsValue ws s
      → ((w : WireId) → w ∈ gates.inputs op → w ∈ ws)
      → gates.is_operation_local op ≡ true
      → ((w : WireId) → count w (ws ++ gates.outputs op) ≤ 1)
      → Safe (λ _ t. Written S IsValue (ws ++ gates.outputs op) t) (do_local_operation S op s)
  unfolding do_local_operation
  do_local_operation-Safe ws op s v h local once =
      >>=-Safe _ _ _ _ s (begin_operation-Safe ws op s v h) λ out t (p, (quiet, fin)).
        >>=-Safe _ _ _ _ t
          (assert_empty-Safe out.send_request (Written S IsValue ws) t (quiet local).0 p)
          λ _ t p.
            >>=-Safe _ _ _ _ t
              (assert_empty-Safe out.receive_request (Written S IsValue ws) t (quiet local).1 p)
              λ _ t p.
                >>=-Safe (Ended ws op) _ _ _ t
                  (finalize-Safe ws op out [] t p fin
                    (subst (λ rs. Matches {T = NetworkElement} rs []) (sym (quiet local).1) tt) tt)
                  λ xs t (p, (n, a)).
                    write_wires-Safe S IsValue ws (gates.outputs op) xs t p n a once

  pub do_local_operations-Safe :
      (done ops : List gates.Operation) (s : Machine S)
      → Written S IsValue (all_outputs gates done) s
      → IsOrdered gates done ops
      → All (λ op. gates.is_operation_local op ≡ true) ops
      → ((w : WireId) → count w (all_outputs gates (done ++ ops)) ≤ 1)
      → Safe
          (λ _ t. Written S IsValue (all_outputs gates (done ++ ops)) t)
          (do_local_operations S ops s)
  unfolding do_local_operations
  do_local_operations-Safe done [] s v order local once =
      lift_ok _ tt s
        (subst (λ l. Written S IsValue (all_outputs gates l) s) (sym (append-nil done)) v)
  do_local_operations-Safe done (op ∷ ops) s v order local once =
      let split = append_assoc done (op ∷ []) ops in
      let here = all_outputs-snoc gates done op in
      >>=-Safe _ _ _ _ s
        (do_local_operation-Safe (all_outputs gates done) op s v order.0 local.0 λ w. omega (
          arith,
          once w,
          ap (count w) (all_outputs-append gates done (op ∷ ops)),
          count-append w (all_outputs gates done) (gates.outputs op ++ all_outputs gates ops),
          count-append w (gates.outputs op) (all_outputs gates ops),
          count-append w (all_outputs gates done) (gates.outputs op),
        ))
        λ _ t p.
          subst
            (λ l.
              Safe (λ _ u. Written S IsValue (all_outputs gates l) u) (do_local_operations S ops t))
            split
            (do_local_operations-Safe (done ++ op ∷ []) ops t
              (subst (λ l. Written S IsValue l t) (sym here) p) order.1 local.1
              (λ w. rw split (once w)))

  abbrev AllFinish : List (gates.Operation × Output S) → Type 0
  AllFinish outs = All (λ p. Finishes p.0 p.1) outs

  begin_operations-Safe :
      (ws : List WireId) (ops : List gates.Operation) (s : Machine S)
      → Written S IsValue ws s
      → All (λ op. (w : WireId) → w ∈ gates.inputs op → w ∈ ws) ops
      → Safe
          (λ outs t. Written S IsValue ws t × (AllFinish outs × (map (λ p. p.0) outs ≡ ops)))
          (begin_operations S ops s)
  unfolding begin_operations
  begin_operations-Safe ws [] s v h = lift_ok _ [] s (v, (tt, refl))
  begin_operations-Safe ws (op ∷ ops) s v h =
      >>=-Safe _ _ _ _ s (begin_operation-Safe ws op s v h.0) λ out t (p, (quiet, fin)).
        >>=-Safe _ _ _ _ t (begin_operations-Safe ws ops t p h.1) λ outs t (p, (fins, same)).
          lift_ok _ ((op, out) ∷ outs) t (p, ((fin, fins), ap (λ l. op ∷ l) same))

  -- Results with a value for each output.
  abbrev AreValues : List (gates.Operation × List Wire) → Type 0
  AreValues results = All (λ p. (length p.1 ≡ length (gates.outputs p.0)) × All IsValue p.1) results

  finalize_operations-Safe :
      (ws : List WireId) (outs : List (gates.Operation × Output S))
      (batches : List (List NetworkElement)) (s : Machine S)
      → Written S IsValue ws s
      → AllFinish outs
      → Matches (all_receive_requests S outs) batches
      → All IsElement (concat batches)
      → Safe
          (λ results t.
            Written S IsValue ws t
            × (AreValues results × (map (λ p. p.0) results ≡ map (λ p. p.0) outs)))
          (finalize_operations S outs batches s)
  unfolding finalize_operations
  finalize_operations-Safe ws [] batches s v fin m a = lift_ok _ [] s (v, (tt, refl))
  finalize_operations-Safe ws ((op, out) ∷ outs) batches s v fin m a =
      let n = length out.receive_request in
      let (now, later) =
        Matches-append out.receive_request (all_receive_requests S outs) batches m in
      let (a_now, a_later) = All-take IsElement n batches a in
      >>=-Safe (Ended ws op) _ _ _ s (finalize-Safe ws op out (take n batches) s v fin.0 now a_now)
        λ xs t (p, q).
          >>=-Safe _ _ _ _ t
            (finalize_operations-Safe ws outs (drop n batches) t p fin.1 later a_later)
            λ results t (p, (values, same)).
              lift_ok _ ((op, xs) ∷ results) t (p, ((q, values), ap (λ l. op ∷ l) same))

  write_results-Safe :
      (ws : List WireId) (results : List (gates.Operation × List Wire)) (s : Machine S)
      → Written S IsValue ws s
      → AreValues results
      → ((w : WireId) → count w (ws ++ all_outputs gates (map (λ p. p.0) results)) ≤ 1)
      → Safe
          (λ _ t. Written S IsValue (ws ++ all_outputs gates (map (λ p. p.0) results)) t)
          (write_results S results s)
  unfolding write_results
  write_results-Safe ws [] s v values once =
      lift_ok _ tt s (subst (λ l. Written S IsValue l s) (sym (append-nil ws)) v)
  write_results-Safe ws ((op, xs) ∷ results) s v values once =
      let others = all_outputs gates (map (λ p. p.0) results) in
      let split = append_assoc ws (gates.outputs op) others in
      >>=-Safe _ _ _ _ s
        (write_wires-Safe S IsValue ws (gates.outputs op) xs s v values.0.0 values.0.1 λ w.
          omega (arith, once w, ap (count w) split, count-append w (ws ++ gates.outputs op) others))
        λ _ t p.
          subst (λ l. Safe (λ _ u. Written S IsValue l u) (write_results S results t)) split
            (write_results-Safe (ws ++ gates.outputs op) results t p values.1
              (λ w. rw split (once w)))

  asked :
      {A : Type 0} (P : A → Type 0) (ws : List WireId) (s : Machine S)
      (r : Net × Outcome (Unit {0}) A)
      → Written S IsValue ws s
      → Safe (λ a n. P a) r
      → Safe
          (λ a t. Written S IsValue ws t × P a)
          (lift {E = ExecutionContextError} (scheme_failure r.1) (record s { network = r.0 }))
  unfolding lift Safe
  asked P ws s (n, ok a) v p =
      (record { context = v.context; ready = v.ready; has = v.has; only = v.only }, p)
  asked P ws s (n, err e) v p = tt
  asked P ws s (n, panic) v p = absurd p
  asked P ws s (n, out_of_fuel) v p = absurd p

  call_network-Safe :
      {A : Type 0} (P : A → Type 0) (ws : List WireId) (s : Machine S)
      (f : Net → Net × Outcome (Unit {0}) A)
      → Written S IsValue ws s
      → Safe (λ a n. P a) (f s.network)
      → Safe (λ a t. Written S IsValue ws t × P a) (call_network S f s)
  unfolding call_network gets modify ◌>>=◌
  call_network-Safe P ws s f v p = asked P ws s (f s.network) v p

  initialised :
      (ws : List WireId) (s : Machine S) (o : Option Context)
      → s.scheme_context ≡ o
      → Written S IsValue ws s
      → Safe (λ _ t. Written S IsValue ws t) (s, unwrap {E = ExecutionContextError} o)
  unfolding Safe
  initialised ws s none e v = let bad = sym e ∙ v.ready in cc
  initialised ws s (some c) e v = v

  pub assume_init-Safe :
      (ws : List WireId) (s : Machine S)
      → Written S IsValue ws s
      → Safe (λ _ t. Written S IsValue ws t) (assume_init S s)
  unfolding assume_init
  assume_init-Safe ws s v = initialised ws s s.scheme_context refl v

  module _ {Hash : Type 0} (N : Network Net Hash NetworkElement) (H : IsHonest S N IsElement) where
    pub do_network_operations-Safe :
        (ws : List WireId) (ops : List gates.Operation) (s : Machine S)
        → Written S IsValue ws s
        → All (λ op. (w : WireId) → w ∈ gates.inputs op → w ∈ ws) ops
        → ((w : WireId) → count w (ws ++ all_outputs gates ops) ≤ 1)
        → Safe
            (λ _ t. Written S IsValue (ws ++ all_outputs gates ops) t)
            (do_network_operations S N ops s)
    unfolding do_network_operations
    do_network_operations-Safe ws ops s v h once =
        >>=-Safe _ _ _ _ s (begin_operations-Safe ws ops s v h) λ outs t (p, (fins, same)).
          >>=-Safe _ _ _ _ t (call_network-Safe (λ n. Unit {0}) ws t _ p (H.sends t.network _))
            λ sent t (p, _).
              >>=-Safe _ _ _ _ t
                (call_network-Safe
                  (λ r. Matches (all_receive_requests S outs) r.0 × All IsElement (concat r.0)) ws t
                  _ p (H.receives t.network _))
                λ received t (p, (m, a)).
                  >>=-Safe _ _ _ _ t (finalize_operations-Safe ws outs received.0 t p fins m a)
                    λ results t (p, (values, names)).
                      let ran : map (λ p. p.0) results ≡ ops = names ∙ same in
                      >>=-Safe (λ _ u. Written S IsValue (ws ++ all_outputs gates ops) u) _ _ _ t
                        (subst
                          (λ l.
                            Safe (λ _ u. Written S IsValue (ws ++ all_outputs gates l) u)
                              (write_results S results t))
                          ran (write_results-Safe ws results t p values (λ w. rw ran (once w))))
                        λ _ t p. lift_ok _ _ t p
