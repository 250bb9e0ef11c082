-- ===== src/Additive/Sharing.antt =====
-- src/example/additive.rs: sums of shares modulo `M`. Below `2 ^ 63` no addition overflows.
use mpc_core.Prelude.{
  ℕ, zero, suc, ◌+◌, ◌-◌, ◌%◌, ◌^◌, ◌≤◌, ◌<◌, ◌≡◌, refl, ◌∙◌, ap, sym, List, [], ◌∷◌,
}
use mpc_core.Prelude.{map, ok, All, arith, ◌≢◌, ◌∈◌, inl, inr, ◌⊎◌, Bool-cases, ◌==◌, ==→≢}
use native.Mathlib.Nat.{mod-lt, mod-eq_of_lt, mod-add-mod, add-mod-mod, add-mod_right}
use mpc_core.Prelude.Sums.{sum}
use mpc_core.Network.{send_request}
use mpc_core.Additive.{checked_add, checked_sub, rem, gen_range, add_mod, send_shares, own_share}
use mpc_core.Additive.{others, total_of}

-- The players of a loop are its range without the one skipped.
pub mem-others : (my_id i n p : ℕ) → p ∈ others my_id i n → (p ≢ my_id) × (i ≤ p) × (p < i + n)
unfolding others
mem-others my_id i zero p h = absurd h
mem-others my_id i (suc n) p h = elim (Bool-cases (i == my_id)) [
  | inl e ↦
      let (a, b, c) = mem-others my_id (suc i) n p (ground arith) in (a, omega arith, omega arith)
  | inr e ↦
      let split : (p ≡ i) ⊎ (p ∈ others my_id (suc i) n) = ground arith in
      elim split [
        | inl same ↦ (λ q. ==→≢ i my_id e (sym same ∙ q), omega arith, omega arith)
        | inr later ↦
            let (a, b, c) = mem-others my_id (suc i) n p later in (a, omega arith, omega arith)
      ]
]

module _ (m : ℕ) (pos : 0 < m) where
  pub rem_ok : (a : ℕ) → rem m a ≡ ok (a % m)
  rem_ok a = ground arith

  pub gen_range_ok : (a : ℕ) → gen_range m a ≡ ok a
  gen_range_ok a = ground arith

  module _ (small : m ≤ 2 ^ 63) where
    pub add_mod_ok : (a b : ℕ) → a < m → b < m → add_mod m a b ≡ ok ((a + b) % m)
    add_mod_ok a b ha hb =
        let fits : checked_add a b ≡ ok (a + b) = ground arith in rw fits (rem_ok (a + b))

    pub own_share_ok : (v s : ℕ) → v < m → s < m → own_share m v s ≡ ok (((v + m) - s) % m)
    own_share_ok v s hv hs =
        let fits : checked_add v m ≡ ok (v + m) = ground arith in
        let less : checked_sub (v + m) s ≡ ok ((v + m) - s) = ground arith in
        rw (fits, less) (rem_ok ((v + m) - s))

    pub send_shares_ok :
        (draw : ℕ → ℕ)
        → ((i : ℕ) → draw i < m)
        → (is : List ℕ) (s : ℕ) → s < m
        → send_shares m draw is s
          ≡ ok ((s + sum (map draw is)) % m, map (λ i. send_request i (draw i)) is)
    unfolding send_shares sum
    send_shares_ok draw below [] s h =
        ap (λ x. ok (x, [])) (sym (mod-eq_of_lt h) ∙ ap (λ x. x % m) (omega arith))
    send_shares_ok draw below (i ∷ is) s h =
        let drawn = gen_range_ok (draw i) in
        let step = add_mod_ok s (draw i) h (below i) in
        let rest = send_shares_ok draw below is ((s + draw i) % m) (mod-lt (s + draw i) pos) in
        let total : ((s + draw i) % m + sum (map draw is)) % m
            ≡ (s + (draw i + sum (map draw is))) % m =
          mod-add-mod (s + draw i) m (sum (map draw is)) ∙ ap (λ x. x % m) (omega arith) in
        rw (drawn, step, rest, total) refl

    pub total_of_ok :
        (rs : List ℕ) (t : ℕ)
        → t < m
        → All (λ r. r < m) rs
        → total_of m t rs ≡ ok ((t + sum rs) % m)
    unfolding total_of sum
    total_of_ok [] t h a = ap ok (sym (mod-eq_of_lt h) ∙ ap (λ x. x % m) (omega arith))
    total_of_ok (r ∷ rs) t h a =
        let step = add_mod_ok t r h a.0 in
        let rest = total_of_ok rs ((t + r) % m) (mod-lt (t + r) pos) a.1 in
        rw (step, rest) (ap ok (mod-add-mod (t + r) m (sum rs) ∙ ap (λ x. x % m) (omega arith)))

  -- The own share completes the others to the input.
  pub own-share-sum : (v total : ℕ) → v < m → ((((v + m) - (total % m)) % m) + total) % m ≡ v
  own-share-sum v total h =
      let q = mod-lt total pos in
      mod-add-mod ((v + m) - (total % m)) m total
      ∙ sym (add-mod-mod ((v + m) - (total % m)) total m)
      ∙ ap (λ x. x % m) (omega (arith, q, h))
      ∙ add-mod_right v m
      ∙ mod-eq_of_lt h
