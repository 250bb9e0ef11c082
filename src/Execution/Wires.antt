-- ===== src/Execution/Wires.antt =====
-- src/mpc/execution.rs: reading and writing wires, and calling the scheme, when the wires that are needed
-- are there and those that are written are not.
use mpc_core.Prelude.{suc, ◌≤◌, ◌≡◌, refl, ◌∙◌, sym, ap, subst}
use mpc_core.Prelude.{
  List, [], ◌∷◌, ◌++◌, length, count, All, ◌∈◌, inl, inr, arith, append_assoc, append-nil,
}
use mpc_core.Prelude.{
  Outcome, ok, err, panic, out_of_fuel, Option, some, none, unwrap, ◌==◌, ==→≡, ==→≢,
}
use mpc_core.Prelude.{
  Bool-cases, Option-cases, mem-append, mem-append_left, mem-snoc, count-append, count-pos_of_mem,
  count_self,
}
use mpc_core.Prelude.Map
use mpc_core.Prelude.Map.{get-put}
use mpc_core.Prelude.Runs.{◌>>=◌, ◌>>◌, lift, gets, modify, go_on}
use mpc_core.Operation.{WireId}
use mpc_core.Scheme.{MpcScheme}
use mpc_core.Execution.{Machine, ExecutionContextError, call_scheme, assume_init, scheme_failure}
use mpc_core.Execution.Rounds.{read_wires, write_wires}
use mpc_core.Execution.Contract.{Safe, go_on-Safe}

only_member : (w id : WireId) → w ∈ id ∷ [] → w ≡ id
only_member w id (inl e) = e
only_member w id (inr h) = absurd h

module _ {Net : Type 0} (S : MpcScheme Net) (IsValue : S.Wire → Type 0) where
  open S use {gates, Wire, Context}

  -- The wires that have a value are `ws`, and the scheme's context is there.
  pub record Written (ws : List WireId) (s : Machine S) : Type 0 where
    pub context : Context
    pub ready : s.scheme_context ≡ some context
    pub has : (w : WireId) → w ∈ ws → (v : Wire) × (Map.get s.wire_contents w ≡ some v) × IsValue v
    pub only : (w : WireId) (v : Wire) → Map.get s.wire_contents w ≡ some v → w ∈ ws

  handed :
      {A : Type 0} (P : A → Type 0) (ws : List WireId) (s : Machine S)
      (r : Context × Outcome (Unit {0}) A)
      → Written ws s
      → Safe (λ a c. P a) r
      → Safe
          (λ a t. Written ws t × P a)
          (lift {E = ExecutionContextError}
            (scheme_failure r.1)
            (record s { scheme_context = some r.0 }))
  unfolding lift Safe
  handed P ws s (c, ok a) v p =
      (record { context = c; ready = refl; has = v.has; only = v.only }, p)
  handed P ws s (c, err e) v p = tt
  handed P ws s (c, panic) v p = absurd p
  handed P ws s (c, out_of_fuel) v p = absurd p

  called :
      {A : Type 0} (P : A → Type 0) (ws : List WireId) (s : Machine S) (o : Option Context)
      (f : Context → Context × Outcome (Unit {0}) A)
      → s.scheme_context ≡ o
      → Written ws s
      → ((c : Context) → Safe (λ a c. P a) (f c))
      → Safe
          (λ a t. Written ws t × P a)
          (go_on
            (s, unwrap o)
            (λ context.
              modify (λ t. record t { scheme_context = some (f context).0 })
              >> lift (scheme_failure (f context).1)))
  unfolding ◌>>=◌ modify
  called P ws s none f e v p = let bad = sym e ∙ v.ready in cc
  called P ws s (some c) f e v p = handed P ws s (f c) v (p c)

  pub call_scheme-Safe :
      {A : Type 0} (P : A → Type 0) (ws : List WireId) (s : Machine S)
      (f : Context → Context × Outcome (Unit {0}) A)
      → Written ws s
      → ((c : Context) → Safe (λ a c. P a) (f c))
      → Safe (λ a t. Written ws t × P a) (call_scheme S f s)
  unfolding call_scheme assume_init ◌>>=◌
  call_scheme-Safe P ws s f v p = called P ws s s.scheme_context f refl v p

  pub read_wires-Safe :
      (ws ids : List WireId) (s : Machine S)
      → Written ws s
      → ((w : WireId) → w ∈ ids → w ∈ ws)
      → Safe (λ vs t. Written ws t × (length vs ≡ length ids) × All IsValue vs) (read_wires S ids s)
  unfolding read_wires gets lift ◌>>=◌ Safe
  read_wires-Safe ws [] s v h = (v, refl, tt)
  read_wires-Safe ws (id ∷ ids) s v h =
      let (x, at, good) = v.has id (h id (inl refl)) in
      rw at (
        go_on-Safe (λ vs t. Written ws t × (length vs ≡ length ids) × All IsValue vs)
          (λ vs t. Written ws t × (length vs ≡ suc (length ids)) × All IsValue vs)
          (read_wires S ids s) _ (read_wires-Safe ws ids s v (λ w m. h w (inr m)))
          (λ vs t (p, n, a). (p, ap suc n, (good, a))))

  -- A wire that is written is one more with a value.
  put-Written :
      (ws : List WireId) (id : WireId) (x : Wire) (s : Machine S)
      → Written ws s
      → IsValue x
      → Written (ws ++ id ∷ []) (record s { wire_contents = Map.put s.wire_contents id x })
  put-Written ws id x s v good = record {
    context = v.context;
    ready = v.ready;
    has = λ w m. elim (Bool-cases (id == w)) [
      | inl e ↦ (x, rw (get-put s.wire_contents id w x, e) refl, good)
      | inr e ↦ elim (mem-append w ws (id ∷ []) m) [
        | inl old ↦
            let (y, at, g) = v.has w old in (y, rw (get-put s.wire_contents id w x, e) at, g)
        | inr new ↦ absurd (==→≢ id w e (sym (only_member w id new)))
      ]
    ];
    only = λ w y h. elim (Bool-cases (id == w)) [
      | inl e ↦ subst (λ k. k ∈ ws ++ id ∷ []) (==→≡ id w e) (mem-snoc id ws)
      | inr e ↦
          mem-append_left w ws (id ∷ []) (v.only w y (rw (get-put s.wire_contents id w x, e) at h))
    ];
  }

  -- A wire that is not written yet has no value.
  unwritten :
      (ws ids : List WireId) (id : WireId) (s : Machine S)
      → Written ws s
      → count id (ws ++ id ∷ ids) ≤ 1
      → Map.get s.wire_contents id ≡ none
  unwritten ws ids id s v once = elim (Option-cases (Map.get s.wire_contents id)) [
    | inl e ↦ e
    | inr (x, e) ↦
        let seen = count-pos_of_mem id ws (v.only id x e) in
        absurd (omega (arith, seen, once, count-append id ws (id ∷ ids), count_self id ids))
  ]

  pub write_wires-Safe :
      (ws ids : List WireId) (xs : List Wire) (s : Machine S)
      → Written ws s
      → length xs ≡ length ids
      → All IsValue xs
      → ((w : WireId) → count w (ws ++ ids) ≤ 1)
      → Safe (λ _ t. Written (ws ++ ids) t) (write_wires S ids xs s)
  unfolding write_wires gets lift modify ◌>>=◌ Safe
  write_wires-Safe ws [] [] s v n a once = subst (λ l. Written l s) (sym (append-nil ws)) v
  write_wires-Safe ws [] (x ∷ xs) s v n a once = absurd (omega arith)
  write_wires-Safe ws (id ∷ ids) [] s v n a once = absurd (omega arith)
  write_wires-Safe ws (id ∷ ids) (x ∷ xs) s v n a once =
      let free = unwritten ws ids id s v (once id) in
      let t : Machine S = record s { wire_contents = Map.put s.wire_contents id x } in
      let split = append_assoc ws (id ∷ []) ids in
      rw free (
        subst (λ l. Safe (λ _ u. Written l u) (write_wires S ids xs t)) split
          (write_wires-Safe (ws ++ id ∷ []) ids xs t (put-Written ws id x s v a.0) (omega arith) a.1
            (λ w. rw split (once w))))
