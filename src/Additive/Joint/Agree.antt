-- ===== src/Additive/Joint/Agree.antt =====
-- src/example/additive.rs: when the contents of the players' wires stand for plain values, before
-- and after an operation at all players.
use mpc_core.Prelude.{ℕ, ◌%◌, ◌<◌, ◌≡◌, ◌≢◌, refl, ◌∙◌, ap, subst, Option, none, some, [], ◌∷◌}
use mpc_core.Prelude.{Bool, true, false, ok, ◌==◌, ==→≢, Bool-cases, inl, inr, if◌then◌else◌}
use mpc_core.Prelude.Map
use mpc_core.Prelude.Map.{HashMap, get-put}
use mpc_core.Operation.{WireId}
use mpc_core.Additive.{
  AdditiveOperation, output_of, AdditiveContext, PhaseOutput, do_finalize_phase,
}
use mpc_core.Execution.Sequence.{write}
use mpc_core.Additive.Joint.{
  Player, Plain, shared, public, total, begin, end, step, next, delivered, sends_of,
}

at_if : {A : Type 0} {b : Bool} → b ≡ true → (x y : A) → (if b then x else y) ≡ x
at_if e x y = rw e refl

pub at_else : {A : Type 0} {b : Bool} → b ≡ false → (x y : A) → (if b then x else y) ≡ y
at_else e x y = rw e refl

module _ (m n : ℕ) (given : ℕ → WireId → Option ℕ) where
  -- Shares below `m` that add up to a shared value, or the public value at every player.
  abbrev pub Represents : Plain → (ℕ → Option ℕ) → Type 0
  Represents (shared v) f =
      (z : ℕ → ℕ) × ((i : ℕ) → i < n → (f i ≡ some (z i)) × (z i < m)) × (total 0 n z % m ≡ v)
  Represents (public v) f = ((i : ℕ) → i < n → f i ≡ some v) × (v < m)

  pub Represents-congr :
      (v : Plain) (f g : ℕ → Option ℕ)
      → ((i : ℕ) → i < n → g i ≡ f i)
      → Represents v f
      → Represents v g
  Represents-congr (shared v) f g same (z, h, sums) =
      (z, λ i lt. (same i lt ∙ (h i lt).0, (h i lt).1), sums)
  Represents-congr (public v) f g same (h, lt) = (λ i b. same i b ∙ h i b, lt)

  -- The players' wires stand for the plain values, and the inputs of the wires to come are still there.
  pub record Agree (players : ℕ → Player) (plain : HashMap Plain) : Type 0 where
    pub ids :
        (i : ℕ) → i < n → ((players i).context.my_id ≡ i) × ((players i).context.n_players ≡ n)
    pub holds :
        (w : WireId) (v : Plain)
        → Map.get plain w ≡ some v
        → Represents v (λ i. Map.get (players i).wires w)
    pub fresh :
        (w : WireId) → Map.get plain w ≡ none → (i : ℕ) → i < n → Map.get (players i).wires w ≡ none
    pub inputs :
        (w : WireId)
        → Map.get plain w ≡ none
        → (i : ℕ) → i < n
        → Map.get (players i).context.user_inputs w ≡ given i w

  -- The context is the same but for the input of `w`.
  pub record Kept (w : WireId) (c d : AdditiveContext) : Type 0 where
    pub my_id : d.my_id ≡ c.my_id
    pub n_players : d.n_players ≡ c.n_players
    pub others : (u : WireId) → w ≢ u → Map.get d.user_inputs u ≡ Map.get c.user_inputs u

  pub Kept-refl : (w : WireId) (c : AdditiveContext) → Kept w c c
  Kept-refl w c = record { my_id = refl; n_players = refl; others = λ u ne. refl }

  -- What an operation does at all players, for the plain value `v`.
  pub record Advance (draw : ℕ → ℕ → ℕ) (op : AdditiveOperation) (players : ℕ → Player) (v : Plain)
      : Type 0 where
    pub context : ℕ → AdditiveContext
    pub value : ℕ → ℕ
    pub ran :
        (i : ℕ)
        → i < n
        → step m draw op players i
          ≡ ok (record {
            context = context i;
            wires = Map.put (players i).wires (output_of op) (value i);
          })
    pub kept : (i : ℕ) → i < n → Kept (output_of op) (players i).context (context i)
    pub right : Represents v (λ i. some (value i))

  -- The two phases at one player.
  pub step_ok :
      (draw : ℕ → ℕ → ℕ) (op : AdditiveOperation) (players : ℕ → Player) (i : ℕ)
      (c : AdditiveContext) (out : PhaseOutput) (x : ℕ)
      → Map.get (players i).wires (output_of op) ≡ none
      → begin m (draw i) op (players i) ≡ ok (c, out)
      → do_finalize_phase m out.pending
          (delivered (λ j. sends_of (begin m (draw j) op (players j))) i out.receive_request)
        ≡ ok (x ∷ [])
      → step m draw op players i
        ≡ ok (record { context = c; wires = Map.put (players i).wires (output_of op) x })
  unfolding step end write
  step_ok draw op players i c out x free begun ended = rw (begun, ended, free) refl

  pub next_ok :
      (draw : ℕ → ℕ → ℕ) (op : AdditiveOperation) (players : ℕ → Player) (i : ℕ) (p : Player)
      → step m draw op players i ≡ ok p
      → next m draw op players i ≡ p
  unfolding next
  next_ok draw op players i p e = rw e refl

  -- After it, the players' wires stand for the plain values with the new one.
  pub Advance-Agree :
      (draw : ℕ → ℕ → ℕ) (op : AdditiveOperation) (players : ℕ → Player) (plain : HashMap Plain)
      (v : Plain)
      → Agree players plain
      → Map.get plain (output_of op) ≡ none
      → Advance draw op players v
      → Agree (next m draw op players) (Map.put plain (output_of op) v)
  Advance-Agree draw op players plain v a new s = record {
    ids = λ i lt.
        let kept = s.kept i lt in
        let (me, size) = a.ids i lt in
        (
          ap (λ p. p.context.my_id) (after i lt) ∙ kept.my_id ∙ me,
          ap (λ p. p.context.n_players) (after i lt) ∙ kept.n_players ∙ size,
        );
    holds = λ u x h. elim (Bool-cases (w == u)) [
      | inl e ↦
          let is : v ≡ x = let g = rw (get-put plain w u v, e) at h in cc in
          subst (λ p. Represents p (λ i. Map.get (next m draw op players i).wires u)) is
            (Represents-congr v _ _
              (λ i lt. wire_after i lt u ∙ at_if e (some (s.value i)) (Map.get (players i).wires u))
              s.right)
      | inr e ↦
          Represents-congr x _ _
            (λ i lt. wire_after i lt u ∙ at_else e (some (s.value i)) (Map.get (players i).wires u))
            (a.holds u x (rw (get-put plain w u v, e) at h))
    ];
    fresh = λ u h i lt. elim (Bool-cases (w == u)) [
      | inl e ↦ let g = rw (get-put plain w u v, e) at h in cc
      | inr e ↦
          wire_after i lt u
          ∙ at_else e (some (s.value i)) (Map.get (players i).wires u)
          ∙ a.fresh u (rw (get-put plain w u v, e) at h) i lt
    ];
    inputs = λ u h i lt. elim (Bool-cases (w == u)) [
      | inl e ↦ let g = rw (get-put plain w u v, e) at h in cc
      | inr e ↦
          ap (λ p. Map.get p.context.user_inputs u) (after i lt)
          ∙ (s.kept i lt).others u (==→≢ w u e)
          ∙ a.inputs u (rw (get-put plain w u v, e) at h) i lt
    ];
  }
    where
      w : WireId
      w = output_of op

      after :
          (i : ℕ)
          → i < n
          → next m draw op players i ≡ record {
            context = s.context i;
            wires = Map.put (players i).wires (output_of op) (s.value i);
          }
      after i lt = next_ok draw op players i _ (s.ran i lt)

      wire_after :
          (i : ℕ)
          → i < n
          → (u : WireId)
          → Map.get (next m draw op players i).wires u
            ≡ (if output_of op == u then some (s.value i) else Map.get (players i).wires u)
      wire_after i lt u =
          ap (λ p. Map.get p.wires u) (after i lt)
          ∙ get-put (players i).wires (output_of op) u (s.value i)
