-- ===== src/Additive/Joint/Operations.antt =====
-- src/example/additive.rs: the local operations, run by all players, beside their plain values.
use mpc_core.Prelude.{
  ℕ, ◌+◌, ◌*◌, ◌%◌, ◌^◌, ◌≤◌, ◌<◌, ◌≡◌, refl, ◌∙◌, sym, ap, subst, Option, none, some, [],
}
use mpc_core.Prelude.{arith, ok}
use native.Mathlib.Nat.{mod-lt, mod-add-mod, add-mod-mod}
use mpc_core.Prelude.Map
use mpc_core.Prelude.Map.{HashMap}
use mpc_core.Operation.{WireId}
use mpc_core.Additive.{gen_random, add, do_network_phase, do_finalize_phase}
use mpc_core.Additive.{phase_output, gen_random_pending, add_pending}
use mpc_core.Additive.Sharing.{gen_range_ok, add_mod_ok}
use mpc_core.Execution.Sequence.{read}
use mpc_core.Additive.Joint.{
  Player, Plain, shared, public, total, begin, step, delivered, sum_plain,
}
use mpc_core.Additive.Joint.Totals.{total_congr, total_const, total-add, total-mod}
use mpc_core.Additive.Joint.Agree.{Agree, Kept-refl, Advance, step_ok}

module _ (m n : ℕ) (given : ℕ → WireId → Option ℕ) (pos : 0 < m) (small : m ≤ 2 ^ 63)
    (draw : ℕ → ℕ → ℕ) (below : (j i : ℕ) → draw j i < m) (players : ℕ → Player)
    (plain : HashMap Plain) (a : Agree m n given players plain) where
  pub gen_random-Advance :
      (w : WireId)
      → Map.get plain w ≡ none
      → Advance m n given draw (gen_random w) players (shared (total 0 n (λ j. draw j j) % m))
  unfolding begin read do_network_phase do_finalize_phase delivered
  gen_random-Advance w new =
      let drawn = λ (i : ℕ). draw i (players i).context.my_id in
      record {
        context = λ i. (players i).context;
        value = drawn;
        ran = λ i lt.
            step_ok m n given draw (gen_random w) players i (players i).context
              (phase_output (gen_random_pending (drawn i)) [] []) (drawn i) (a.fresh w new i lt)
              (rw (gen_range_ok m pos (drawn i)) refl) refl;
        kept = λ i lt. Kept-refl m n given w (players i).context;
        right = (
          drawn,
          λ i lt. (refl, below i (players i).context.my_id),
          ap (λ t. t % m)
              (total_congr 0 n drawn (λ j. draw j j)
                (λ i l h. ap (draw i) (a.ids i (omega arith)).0)),
        );
      }

  -- Both operands are read, and their sum is the output.
  add_ok :
      (l r w : WireId) (x y i : ℕ)
      → i < n
      → Map.get plain w ≡ none
      → Map.get (players i).wires l ≡ some x
      → Map.get (players i).wires r ≡ some y
      → x < m
      → y < m
      → step m draw (add l r w) players i
        ≡ ok (record {
          context = (players i).context;
          wires = Map.put (players i).wires w ((x + y) % m);
        })
  unfolding begin read do_network_phase do_finalize_phase delivered
  add_ok l r w x y i lt new left right x_lt y_lt =
      step_ok m n given draw (add l r w) players i (players i).context
        (phase_output (add_pending ((x + y) % m)) [] []) ((x + y) % m) (a.fresh w new i lt)
        (rw (left, right, add_mod_ok m pos small x y x_lt y_lt) refl) refl

  add_shared :
      (l r w : WireId) (x y : ℕ)
      → Map.get plain w ≡ none
      → Map.get plain l ≡ some (shared x)
      → Map.get plain r ≡ some (shared y)
      → Advance m n given draw (add l r w) players (shared ((x + y) % m))
  add_shared l r w x y new left right =
      let (z, zs, sums) = a.holds l (shared x) left in
      let (u, us, adds) = a.holds r (shared y) right in
      record {
        context = λ i. (players i).context;
        value = λ i. (z i + u i) % m;
        ran = λ i lt.
            add_ok l r w (z i) (u i) i lt new (zs i lt).0 (us i lt).0 (zs i lt).1 (us i lt).1;
        kept = λ i lt. Kept-refl m n given w (players i).context;
        right = (
          λ i. (z i + u i) % m,
          λ i lt. (refl, mod-lt (z i + u i) pos),
          total-mod m 0 n (λ i. z i + u i)
              ∙ ap (λ t. t % m) (total-add 0 n z u)
              ∙ sym (mod-add-mod (total 0 n z) m (total 0 n u))
              ∙ sym (add-mod-mod (total 0 n z % m) (total 0 n u) m)
              ∙ ap (λ t. (t + total 0 n u % m) % m) sums
              ∙ ap (λ t. (x + t) % m) adds,
        );
      }

  add_public :
      (l r w : WireId) (x y : ℕ)
      → Map.get plain w ≡ none
      → Map.get plain l ≡ some (public x)
      → Map.get plain r ≡ some (public y)
      → Advance m n given draw (add l r w) players (public ((x + y) % m))
  add_public l r w x y new left right =
      let (xs, x_lt) = a.holds l (public x) left in
      let (ys, y_lt) = a.holds r (public y) right in
      record {
        context = λ i. (players i).context;
        value = λ i. (x + y) % m;
        ran = λ i lt. add_ok l r w x y i lt new (xs i lt) (ys i lt) x_lt y_lt;
        kept = λ i lt. Kept-refl m n given w (players i).context;
        right = (λ i lt. refl, mod-lt (x + y) pos);
      }

  -- A public value is added at every player.
  pub add_mixed :
      (l r w : WireId) (x y : ℕ)
      → Map.get plain w ≡ none
      → Map.get plain l ≡ some (shared x)
      → Map.get plain r ≡ some (public y)
      → Advance m n given draw (add l r w) players (shared ((x + n * y) % m))
  add_mixed l r w x y new left right =
      let (z, zs, sums) = a.holds l (shared x) left in
      let (ys, y_lt) = a.holds r (public y) right in
      record {
        context = λ i. (players i).context;
        value = λ i. (z i + y) % m;
        ran = λ i lt. add_ok l r w (z i) y i lt new (zs i lt).0 (ys i lt) (zs i lt).1 y_lt;
        kept = λ i lt. Kept-refl m n given w (players i).context;
        right = (
          λ i. (z i + y) % m,
          λ i lt. (refl, mod-lt (z i + y) pos),
          total-mod m 0 n (λ i. z i + y)
              ∙ ap (λ t. t % m)
                  (total-add 0 n z (λ i. y) ∙ ap (λ t. total 0 n z + t) (total_const 0 n y))
              ∙ sym (mod-add-mod (total 0 n z) m (n * y))
              ∙ ap (λ t. (t + n * y) % m) sums,
        );
      }

  pub add-Advance :
      (l r w : WireId) (v : Plain) (x y : Option Plain)
      → Map.get plain w ≡ none
      → Map.get plain l ≡ x
      → Map.get plain r ≡ y
      → sum_plain m n given x y ≡ some v
      → Advance m n given draw (add l r w) players v
  add-Advance l r w v (some (shared x)) (some (shared y)) new left right e =
      let same : shared ((x + y) % m) ≡ v = cc in
      subst (Advance m n given draw (add l r w) players) same (add_shared l r w x y new left right)
  add-Advance l r w v (some (public x)) (some (public y)) new left right e =
      let same : public ((x + y) % m) ≡ v = cc in
      subst (Advance m n given draw (add l r w) players) same (add_public l r w x y new left right)
  add-Advance l r w v (some (shared x)) (some (public y)) new left right e = cc
  add-Advance l r w v (some (public x)) (some (shared y)) new left right e = cc
  add-Advance l r w v (some (shared x)) none new left right e = cc
  add-Advance l r w v (some (public x)) none new left right e = cc
  add-Advance l r w v none y new left right e = cc
