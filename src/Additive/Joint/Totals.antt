-- ===== src/Additive/Joint/Totals.antt =====
-- Sums over the players.
use mpc_core.Prelude.{ℕ, zero, suc, ◌+◌, ◌*◌, ◌%◌, ◌≤◌, ◌<◌, ◌≡◌, refl, ◌∙◌, sym, ap, map}
use mpc_core.Prelude.{false, arith, ◌==◌, ==→≡, Bool-cases, inl, inr}
use native.Mathlib.Nat.{mod-add-mod, add-mod-mod, suc-mul, zero-mul}
use mpc_core.Prelude.Sums.{sum}
use mpc_core.Additive.{others}
use mpc_core.Additive.Joint.{total}

pub total_congr :
    (start n : ℕ) (f g : ℕ → ℕ)
    → ((i : ℕ) → start ≤ i → i < start + n → f i ≡ g i)
    → total start n f ≡ total start n g
unfolding total
total_congr start zero f g h = refl
total_congr start (suc n) f g h = omega (
  arith,
  h start (omega arith) (omega arith),
  total_congr (suc start) n f g (λ i a b. h i (omega arith) (omega arith)),
)

pub total-add :
    (start n : ℕ) (f g : ℕ → ℕ) → total start n (λ i. f i + g i) ≡ total start n f + total start n g
unfolding total
total-add start zero f g = refl
total-add start (suc n) f g = omega (arith, total-add (suc start) n f g)

pub total-mod : (m start n : ℕ) (f : ℕ → ℕ) → total start n (λ i. f i % m) % m ≡ total start n f % m
unfolding total
total-mod m start zero f = refl
total-mod m start (suc n) f =
    let rest = total-mod m (suc start) n f in
    mod-add-mod (f start) m (total (suc start) n (λ i. f i % m))
    ∙ sym (add-mod-mod (f start) (total (suc start) n (λ i. f i % m)) m)
    ∙ ap (λ t. (f start + t) % m) rest
    ∙ add-mod-mod (f start) (total (suc start) n f) m

-- The others of a player outside the range are all of it.
total-others_outside :
    (me start n : ℕ) (f : ℕ → ℕ) → me < start → total start n f ≡ sum (map f (others me start n))
unfolding total others sum
total-others_outside me start zero f h = refl
total-others_outside me start (suc n) f h =
    let ne : (start == me) ≡ false = ground arith in
    rw ne (omega (arith, total-others_outside me (suc start) n f (omega arith)))

-- A player and its others are all players.
pub total-others :
    (me start n : ℕ) (f : ℕ → ℕ)
    → start ≤ me
    → me < start + n
    → total start n f ≡ f me + sum (map f (others me start n))
unfolding total others sum
total-others me start zero f a b = absurd (omega arith)
total-others me start (suc n) f a b = elim (Bool-cases (start == me)) [
  | inl e ↦
      let is : start ≡ me = ==→≡ start me e in
      rw e (omega (arith, ap f is, total-others_outside me (suc start) n f (omega arith)))
  | inr e ↦ rw e (omega (arith, total-others me (suc start) n f (ground arith) (omega arith)))
]

pub total_const : (start n c : ℕ) → total start n (λ i. c) ≡ n * c
unfolding total
total_const start zero c = sym (zero-mul c)
total_const start (suc n) c = omega (arith, total_const (suc start) n c, suc-mul n c)
