-- ===== src/Circuit/New/Correct.antt =====
-- How `MpcCircuit::new` ends: it comes back on every list of operations, each error has its cause, and
-- the rounds of a circuit hold the operations in a topological order.
use mpc_core.Prelude.{
  ℕ, zero, suc, ◌+◌, ◌≡◌, refl, ◌∙◌, sym, ap, subst, Bool, true, false, ◌&&◌, not,
}
use mpc_core.Prelude.{Option, none, some, List, [], ◌∷◌, ◌++◌, get_elem?, count, arith, append-nil}
use mpc_core.Prelude.{
  ◌∈◌, All, concat, map, ◌⊎◌, inl, inr, Bool-cases, keep, is_some, ok, err, Returns,
}
use mpc_core.Prelude.{◌<◌, length, mem-of_get_elem?, get_elem?-of_mem, lt-get_elem?}
use mathlib.Core.List.{Perm}
use mathlib.Core.List.Perm
use mpc_core.Operation.{Gates, is_input}
use mpc_core.Circuit.{MpcCircuit, MpcCircuitError, circuit_unsound, wire_produced_many_times}
use mpc_core.Circuit.{wire_consumed_but_not_produced, circuit_cyclic, empty_circuit}
use mpc_core.Circuit.{local_input_operation}
use mpc_core.Circuit.Graph.{Graph}
use mpc_core.Circuit.Graph.Correct.{Built, build_graph-cases}
use mpc_core.Circuit.Sort.{State}
use mpc_core.Circuit.Sort.Pending.{present}
use mpc_core.Circuit.Sort.Trace.{split, waves, Rounds-eq-waves, waves-AreTaken, Rounds-online}
use mpc_core.Circuit.New.{any, check, start, go_online, has_input, finish, new}
use mpc_core.Circuit.New.Start.{Sorted, sort-Sorted}
use mpc_core.Circuit.New.Order.{IsOrdered, IsOrdered-append, Knows, rounds_order, Makes-of_mem}
use mpc_core.Circuit.New.Ready.{IsUnmixed, IsExecutable, IsExecutable-append, after, rounds_ready}
use mpc_core.Circuit.New.Outcomes.{Cause, Compiles}
use mpc_core.Circuit.New.Cycles.{nothing_left}

module _ {A : Type 0} (p : A → Bool) where
  any-of_mem : (xs : List A) → any p xs ≡ true → (x : A) × x ∈ xs × (p x ≡ true)
  any-of_mem [] h = cc
  any-of_mem (x ∷ xs) h = elim (Bool-cases (p x)) [
    | inl e ↦ (x, inl refl, e)
    | inr e ↦ let (y, m, t) = any-of_mem xs (ground arith) in (y, inr m, t)
  ]

  none-of_any : (xs : List A) (x : A) → any p xs ≡ false → x ∈ xs → p x ≡ false
  none-of_any [] x h m = absurd m
  none-of_any (y ∷ ys) x h (inl e) = ground arith
  none-of_any (y ∷ ys) x h (inr m) = none-of_any ys x (ground arith) m

  any-eq-false : (xs : List A) → All (λ x. p x ≡ false) xs → any p xs ≡ false
  any-eq-false [] h = refl
  any-eq-false (x ∷ xs) h = ground (arith, any-eq-false xs h.1)

  All-keep :
      (q : A → Bool) (xs : List A) → All (λ x. p x ≡ false) xs → All (λ x. p x ≡ false) (keep q xs)
  All-keep q [] h = tt
  All-keep q (x ∷ xs) h = elim (Bool-cases (q x)) [
    | inl e ↦ rw e (h.0, All-keep q xs h.1)
    | inr e ↦ rw e (All-keep q xs h.1)
  ]

module _ {Op : Type 0} where
  some_left :
      (ops : List (Option Op))
      → any is_some ops ≡ true
      → (c : ℕ) × (op : Op) × (get_elem? ops c ≡ some (some op))
  some_left [] h = cc
  some_left (some op ∷ ops) h = (zero, op, refl)
  some_left (none ∷ ops) h = let (c, op, e) = some_left ops h in (suc c, op, e)

  none_left : (ops : List (Option Op)) → any is_some ops ≡ false → present ops ≡ []
  unfolding present
  none_left [] h = refl
  none_left (some op ∷ ops) h = cc
  none_left (none ∷ ops) h = none_left ops h

  all_taken :
      (ops : List (Option Op)) (p : ℕ)
      → any is_some ops ≡ false
      → p < length ops
      → get_elem? ops p ≡ some none
  all_taken [] p h k = absurd (omega arith)
  all_taken (some op ∷ ops) p h k = cc
  all_taken (none ∷ ops) zero h k = refl
  all_taken (none ∷ ops) (suc p) h k = all_taken ops p h (omega arith)

module _ (S : Gates) where
  open S use {Operation, inputs, outputs, is_circuit_sound, is_operation_local}

  -- The guards pass, or one of them names its cause.
  check-cases :
      (ops : List Operation)
      → ((e : MpcCircuitError) × (check S ops ≡ err e) × Cause S ops e)
        ⊎ (check S ops ≡ ok tt)
          × (is_circuit_sound ops ≡ true)
          × ((op : Operation) → op ∈ ops → is_input S op ≡ true → is_operation_local op ≡ false)
  unfolding check
  check-cases [] = inl (empty_circuit, refl, refl)
  check-cases (op ∷ ops) = elim (Bool-cases (is_circuit_sound (op ∷ ops))) [
    | inr e ↦ inl (circuit_unsound, rw e refl, e)
    | inl e ↦ elim (Bool-cases (any (λ o. is_input S o && is_operation_local o) (op ∷ ops))) [
      | inl found ↦
          let (o, m, t) =
            any-of_mem (λ (o : Operation). is_input S o && is_operation_local o) (op ∷ ops) found in
          inl (local_input_operation, rw (e, found) refl, (o, m, ground arith, ground arith))
      | inr absent ↦ inr (
        rw (e, absent) refl,
        e,
        λ o m i.
            let h =
              none-of_any (λ (x : Operation). is_input S x && is_operation_local x) (op ∷ ops) o
                absent m in
            ground arith,
      )
    ]
  ]

  -- The operand of the `debug_assert!` holds of rounds without inputs.
  no_round_input :
      (ws : List (List Operation))
      → All (All (λ op. is_input S op ≡ false)) ws
      → any (has_input S) (map (split S) ws) ≡ false
  unfolding has_input
  no_round_input [] h = refl
  no_round_input (w ∷ ws) h =
      let net =
        any-eq-false (is_input S) (keep (λ o. not (is_operation_local o)) w)
          (All-keep (is_input S) (λ o. not (is_operation_local o)) w h.0) in
      let loc =
        any-eq-false (is_input S) (keep is_operation_local w)
          (All-keep (is_input S) is_operation_local w h.0) in
      ground (arith, net, loc, no_round_input ws h.1)

  present-map-some : (ops : List Operation) → present (map some ops) ≡ ops
  unfolding present
  present-map-some [] = refl
  present-map-some (op ∷ ops) = ap (λ l. op ∷ l) (present-map-some ops)

  none-map-some : (ops : List Operation) (p : ℕ) → ¬ (get_elem? (map some ops) p ≡ some none)
  none-map-some [] p h = cc
  none-map-some (op ∷ ops) zero h = cc
  none-map-some (op ∷ ops) (suc p) h = none-map-some ops p h

  some-map-some :
      (ops : List Operation) (p : ℕ) (op : Operation)
      → get_elem? (map some ops) p ≡ some (some op)
      → get_elem? ops p ≡ some op
  some-map-some [] p op h = cc
  some-map-some (o ∷ ops) zero op h = cc
  some-map-some (o ∷ ops) (suc p) op h = some-map-some ops p op h

  module _ (ops : List Operation) (g : Graph) (b : Built S ops g) where
    pub start-Knows : Knows S ops g b [] (start S ops g)
    unfolding start
    start-Knows = record {
      seen = λ p op at f. absurd (none-map-some ops p f);
      here = λ p op f. some-map-some ops p op f;
      given = λ op m. absurd m;
      same = subst (λ l. Perm l ops) (sym (present-map-some ops)) (Perm.refl ops);
    }

    pub go_online-Knows :
        {before : List Operation} {s : State Operation}
        → Knows S ops g b before s
        → Knows S ops g b before (go_online S s)
    unfolding go_online
    go_online-Knows k = record { seen = k.seen; here = k.here; given = k.given; same = k.same }

    go_online-online : (s : State Operation) → (go_online S s).online_wave ≡ []
    unfolding go_online
    go_online-online s = refl

    module _ (s : Sorted S ops g b) where
      abbrev order : List Operation
      order = concat (waves S s.offline) ++ concat (waves S s.online)

      abbrev circuit : MpcCircuit Operation
      circuit = record { offline_rounds = s.mid.1; online_rounds = s.out.1 }

      order-IsOrdered : Knows S ops g b order s.out.0 × IsOrdered S [] order
      order-IsOrdered =
          let (mid, offline) = rounds_order S ops g b s.offline [] start-Knows in
          let (out, online) =
            rounds_order S ops g b s.online (concat (waves S s.offline)) (go_online-Knows mid) in
          (
            out,
            IsOrdered-append S [] (concat (waves S s.offline)) (concat (waves S s.online)) offline
                online,
          )

      executable :
          IsUnmixed S ops → IsExecutable S [] (circuit.offline_rounds ++ circuit.online_rounds)
      executable unmixed =
          let (mid, ordered) = rounds_order S ops g b s.offline [] start-Knows in
          let (first, covers) =
            rounds_ready S ops g b unmixed s.offline [] [] start-Knows (λ op m. m) in
          let (second, rest) =
            rounds_ready S ops g b unmixed s.online (concat (waves S s.offline))
              (after S [] (map (split S) (waves S s.offline))) (go_online-Knows mid) covers in
          rw (Rounds-eq-waves S s.offline, Rounds-eq-waves S s.online)
            (IsExecutable-append S [] (map (split S) (waves S s.offline))
              (map (split S) (waves S s.online)) first second)

      idle :
          (c : ℕ)
          → count c s.out.0.wave + count c s.out.0.next_wave + count c s.out.0.online_wave ≡ 0
      idle c = omega (
        arith,
        ap (count c) s.empty,
        ap (count c) s.no_next,
        ap (count c) (Rounds-online S s.online ∙ go_online-online s.mid.0),
      )

      finish-cases :
          (is_circuit_sound ops ≡ true)
          → ((op : Operation) → op ∈ ops → is_input S op ≡ true → is_operation_local op ≡ false)
          → (finish S (s.out.0.ops, circuit) ≡ err circuit_cyclic) × Cause S ops circuit_cyclic
            ⊎ (finish S (s.out.0.ops, circuit) ≡ ok circuit) × Compiles S ops circuit
      unfolding finish
      finish-cases sound remote =
          let (known, ordered) = order-IsOrdered in
          let no_input = waves-AreTaken S s.offline in
          elim (Bool-cases (any is_some s.out.0.ops)) [
            | inl left ↦ inl (
              rw left refl,
              λ rank ranked.
                  let (c, op, e) = some_left s.out.0.ops left in
                  nothing_left S ops g b rank ranked s.inv known idle (suc (rank op)) c e
                    (omega arith),
            )
            | inr done ↦ inr (
              rw (done, Rounds-eq-waves S s.offline, no_round_input (waves S s.offline) no_input)
                  refl,
              record {
                offline_waves = waves S s.offline;
                online_waves = waves S s.online;
                offline = Rounds-eq-waves S s.offline;
                online = Rounds-eq-waves S s.online;
                ordered = ordered;
                same =
                    subst (λ l. Perm l ops) (append-nil order)
                      (subst (λ l. Perm (order ++ l) ops) (none_left s.out.0.ops done) known.same);
                covers = λ op m.
                    let (p, at) = get_elem?-of_mem ops op m in
                    known.seen p op at (
                      all_taken s.out.0.ops p done
                        (omega (arith, s.inv.len_ops, lt-get_elem? ops p at)));
                within = known.given;
                no_input = no_input;
                distinct = b.distinct;
                sound = sound;
                inputs_remote = remote;
              },
            )
          ]

  -- Either an error with its cause, or a circuit that says what it should of the operations.
  new-cases :
      (ops : List Operation)
      → ((e : MpcCircuitError) × (new S ops ≡ err e) × Cause S ops e)
        ⊎ ((c : MpcCircuit Operation) × (new S ops ≡ ok c)
            × Compiles S ops c
            × (IsUnmixed S ops → IsExecutable S [] (c.offline_rounds ++ c.online_rounds)))
  unfolding new
  new-cases ops = elim (check-cases ops) [
    | inl (e, fails, why) ↦ inl (e, rw fails refl, why)
    | inr (passes, sound, remote) ↦ elim (build_graph-cases S ops) [
      | inr (inl (w, fails, twice)) ↦
          inl (wire_produced_many_times w, rw (passes, fails) refl, twice)
      | inr (inr (w, fails, (k, t), absent)) ↦ inl (
        wire_consumed_but_not_produced w,
        rw (passes, fails) refl,
        (
          (t.op, mem-of_get_elem? ops k t.op t.at, t.takes),
          λ m. let (j, made) = Makes-of_mem S w ops m in absent j made,
        ),
      )
      | inl (g, builds, b) ↦
          let s = sort-Sorted S ops g b in
          elim (finish-cases ops g b s sound remote) [
            | inl (fails, why) ↦ inl (circuit_cyclic, rw (passes, builds, s.returns) fails, why)
            | inr (ends, c) ↦
                inr
                  (circuit ops g b s, rw (passes, builds, s.returns) ends, c, executable ops g b s)
          ]
    ]
  ]

  -- For a scheme whose functions return, `new` comes back on every list of operations: no `unwrap`, index, subtraction or assertion of it
  -- fails, and its loops end within one more round than there are operations.
  pub new-Returns : (ops : List Operation) → Returns (new S ops)
  new-Returns ops = elim (new-cases ops) [
    | inl (e, fails, why) ↦ subst Returns (sym fails) tt
    | inr (c, returns, k, runs) ↦ subst Returns (sym returns) tt
  ]

  -- Each error has its cause: no operations, an unsound circuit, a local input operation, a wire with
  -- two producers, an input wire that no operation produces, or operations that cannot be ranked with
  -- producers below consumers.
  pub new-Cause : (ops : List Operation) (e : MpcCircuitError) → new S ops ≡ err e → Cause S ops e
  new-Cause ops e h = elim (new-cases ops) [
    | inl (f, fails, why) ↦ let same : f ≡ e = cc in subst (Cause S ops) same why
    | inr (c, returns, k, runs) ↦ cc
  ]

  -- A circuit's rounds are waves, split into local and network operations in order; all waves together
  -- hold the given operations, each as often as given, in an order in which every input wire is an
  -- output of an earlier operation; no offline wave holds an input operation.
  pub new-Compiles :
      (ops : List Operation) (c : MpcCircuit Operation) → new S ops ≡ ok c → Compiles S ops c
  new-Compiles ops c h = elim (new-cases ops) [
    | inl (f, fails, why) ↦ cc
    | inr (d, returns, k, runs) ↦ let same : d ≡ c = cc in subst (Compiles S ops) same k
  ]

  -- If no operation has both a local and a network producer, the rounds of a circuit can be executed
  -- as they stand, offline and then online: a local operation finds its inputs among the outputs of
  -- earlier rounds and of the local operations before it, and a network operation among those of
  -- earlier rounds and of its round's local operations.
  pub new-IsExecutable :
      (ops : List Operation) (c : MpcCircuit Operation)
      → IsUnmixed S ops
      → new S ops ≡ ok c
      → IsExecutable S [] (c.offline_rounds ++ c.online_rounds)
  new-IsExecutable ops c unmixed h = elim (new-cases ops) [
    | inl (f, fails, why) ↦ cc
    | inr (d, returns, k, runs) ↦
        let same : d ≡ c = cc in
        subst (λ x. IsExecutable S [] (x.offline_rounds ++ x.online_rounds)) same (runs unmixed)
  ]
