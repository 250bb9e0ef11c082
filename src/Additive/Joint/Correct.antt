-- ===== src/Additive/Joint/Correct.antt =====
-- src/example/additive.rs: all players running the operations, beside the evaluation on plain values.
use mpc_core.Prelude.{
  ℕ, suc, ◌^◌, ◌≤◌, ◌<◌, ◌≡◌, refl, ◌∙◌, sym, ap, subst, Option, none, some, List, [], ◌∷◌,
}
use mpc_core.Prelude.{ok, ◌+◌, ◌*◌, ◌%◌, ==_refl, if◌then◌else◌, Bool-cases, inl, inr, ltb}
use mpc_core.Prelude.Map
use mpc_core.Prelude.Map.{HashMap, get-put}
use mpc_core.Operation.{WireId}
use mathlib.Core.Option.{some-injective}
use mpc_core.Prelude.{arith}
use mpc_core.Additive.{AdditiveOperation, input, gen_random, add, reveal, output_of}
use mpc_core.Additive.Joint.{
  Player, Plain, shared, public, next, run, Succeeds, store, chain, evaluate, value_of,
}
use mpc_core.Additive.Joint.Agree.{Represents, Agree, Advance, Advance-Agree, next_ok}
use mpc_core.Additive.Joint.Operations.{gen_random-Advance, add-Advance, add_mixed}
use mpc_core.Additive.Joint.Exchanges.{reveal-Advance, input-Advance}

module _ (m n : ℕ) (given : ℕ → WireId → Option ℕ) (pos : 0 < m) (small : m ≤ 2 ^ 63) where
  value_of-Advance :
      (draw : ℕ → ℕ → ℕ)
      → ((j i : ℕ) → draw j i < m)
      → (players : ℕ → Player) (plain : HashMap Plain) → Agree m n given players plain
      → (op : AdditiveOperation) (v : Plain) → Map.get plain (output_of op) ≡ none
      → value_of m n given draw op plain ≡ some v
      → Advance m n given draw op players v
  unfolding value_of
  value_of-Advance draw below players plain a (input p w) v new e = elim (Bool-cases (ltb p n)) [
    | inl lt ↦
        subst (Advance m n given draw (input p w) players) (some-injective _ _ (rw lt at e))
          (input-Advance m n given pos small draw below players plain a p w (ground arith) new)
    | inr ge ↦ let g = rw ge at e in cc
  ]
  value_of-Advance draw below players plain a (gen_random w) v new e =
      subst (Advance m n given draw (gen_random w) players) (some-injective _ _ e)
        (gen_random-Advance m n given pos small draw below players plain a w new)
  value_of-Advance draw below players plain a (add l r w) v new e =
      add-Advance m n given pos small draw below players plain a l r w v _ _ new refl refl e
  value_of-Advance draw below players plain a (reveal src w) v new e =
      reveal-Advance m n given pos small draw below players plain a src w v _ new refl e

  evaluate_cons :
      (k : ℕ) (draws : ℕ → ℕ → ℕ → ℕ) (op : AdditiveOperation) (ops : List AdditiveOperation)
      (plain vals : HashMap Plain) (old v : Option Plain)
      → Map.get plain (output_of op) ≡ old
      → value_of m n given (draws k) op plain ≡ v
      → chain m n given
          (store m n given plain (output_of op) old v)
          (evaluate m n given (suc k) draws ops)
        ≡ some vals
      → (x : Plain) × (Map.get plain (output_of op) ≡ none)
        × (value_of m n given (draws k) op plain ≡ some x)
        × (evaluate m n given (suc k) draws ops (Map.put plain (output_of op) x) ≡ some vals)
  evaluate_cons k draws op ops plain vals none (some x) new val e = (x, new, val, e)
  evaluate_cons k draws op ops plain vals none none new val e = cc
  evaluate_cons k draws op ops plain vals (some old) v new val e = cc

  pub run-Agree :
      (k : ℕ) (draws : ℕ → ℕ → ℕ → ℕ) (ops : List AdditiveOperation) (players : ℕ → Player)
      (plain vals : HashMap Plain)
      → ((k j i : ℕ) → draws k j i < m)
      → Agree m n given players plain
      → evaluate m n given k draws ops plain ≡ some vals
      → Succeeds m n k draws ops players × Agree m n given (run m k draws ops players) vals
  unfolding run evaluate
  run-Agree k draws [] players plain vals below a e =
      (tt, subst (Agree m n given players) (some-injective _ _ e) a)
  run-Agree k draws (op ∷ ops) players plain vals below a e =
      let (x, new, val, rest) = evaluate_cons k draws op ops plain vals _ _ refl refl e in
      let advance = value_of-Advance (draws k) (below k) players plain a op x new val in
      let (runs, agree) =
        run-Agree (suc k) draws ops (next m (draws k) op players) _ vals below
          (Advance-Agree m n given (draws k) op players plain x a new advance) rest in
      (
        (
          λ i lt.
              advance.ran i lt
              ∙ ap ok (sym (next_ok m n given (draws k) op players i _ (advance.ran i lt))),
          runs,
        ),
        agree,
      )

-- The players before the first operation, each with its inputs.
abbrev pub starting : ℕ → (ℕ → HashMap ℕ) → ℕ → Player
starting n inputs i = record {
  context = record { my_id = i; n_players = n; user_inputs = inputs i };
  wires = [];
}

module _ (m n : ℕ) (inputs : ℕ → HashMap ℕ) where
  abbrev pub given : ℕ → WireId → Option ℕ
  given i w = Map.get (inputs i) w

  no_value : {A V : Type 0} (w : WireId) {v : V} → Map.get [] w ≡ some v → A
  unfolding Map.get
  no_value w h = cc

  starting-Agree : Agree m n given (starting n inputs) []
  unfolding Map.get
  starting-Agree = record {
    ids = λ i lt. (refl, refl);
    holds = λ w v h. no_value w h;
    fresh = λ w h i lt. refl;
    inputs = λ w h i lt. refl;
  }

  -- Secure evaluation is plain evaluation, for `M` from 1 to `2 ^ 63` and drawn values below `M`. When
  -- the operations can be evaluated on the plain values, every operation succeeds at each of the `n`
  -- players, that start with their inputs and no wires, when each message arrives; and
  -- afterwards the players' contents of a wire with a shared value are below `M` and add up to the value
  -- modulo `M`, and every player's content of a wire with a public value is the value.
  pub run-evaluate :
      (ops : List AdditiveOperation) (draws : ℕ → ℕ → ℕ → ℕ) (vals : HashMap Plain) (w : WireId)
      (v : Plain)
      → 0 < m
      → m ≤ 2 ^ 63
      → ((k j i : ℕ) → draws k j i < m)
      → evaluate m n given 0 draws ops [] ≡ some vals
      → Map.get vals w ≡ some v
      → Succeeds m n 0 draws ops (starting n inputs)
        × Represents m n given v (λ i. Map.get (run m 0 draws ops (starting n inputs) i).wires w)
  run-evaluate ops draws vals w v pos small below e here =
      let (runs, agree) =
        run-Agree m n given pos small 0 draws ops (starting n inputs) [] vals below starting-Agree
          e in
      (runs, agree.holds w v here)

  -- Adding a value that all players know to a shared one counts it once per player. After operations that
  -- can be evaluated on the plain values, with `M` from 1 to `2 ^ 63` and drawn values below `M`, the
  -- addition of a wire with the shared value `x` and one with the public value `y`, to a wire without
  -- a value, leaves contents that add up to `x + n * y` modulo `M`, for `n` players.
  pub add-mixed :
      (ops : List AdditiveOperation) (draws : ℕ → ℕ → ℕ → ℕ) (draw : ℕ → ℕ → ℕ)
      (vals : HashMap Plain) (l r w : WireId) (x y : ℕ)
      → 0 < m
      → m ≤ 2 ^ 63
      → ((k j i : ℕ) → draws k j i < m)
      → ((j i : ℕ) → draw j i < m)
      → evaluate m n given 0 draws ops [] ≡ some vals
      → Map.get vals l ≡ some (shared x)
      → Map.get vals r ≡ some (public y)
      → Map.get vals w ≡ none
      → Represents m n given
          (shared ((x + n * y) % m))
          (λ i. Map.get (next m draw (add l r w) (run m 0 draws ops (starting n inputs)) i).wires w)
  add-mixed ops draws draw vals l r w x y pos small belows below e left right new =
      let (runs, agree) =
        run-Agree m n given pos small 0 draws ops (starting n inputs) [] vals belows starting-Agree
          e in
      let players = run m 0 draws ops (starting n inputs) in
      let advance =
        add_mixed m n given pos small draw below players vals agree l r w x y new left right in
      (Advance-Agree m n given draw (add l r w) players vals _ agree new advance).holds w _ (
        get-put vals w w _
        ∙ ap (λ b. if b then some (shared ((x + n * y) % m)) else Map.get vals w) (==_refl w))
