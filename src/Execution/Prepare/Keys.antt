-- ===== src/Execution/Prepare/Keys.antt =====
-- src/mpc/execution.rs, `prepare_input`: the map of the input wires before any input.
use mpc_core.Prelude.{
  ℕ, suc, ◌≤◌, ◌<◌, ◌≡◌, ◌≢◌, refl, ◌∙◌, sym, ap, subst, Bool, false, none, some, List, [], ◌∷◌,
}
use mpc_core.Prelude.{
  map, count, length, arith, ◌⊎◌, inl, inr, Bool-cases, ◌==◌, ==→≡, ==→≢, ◌∈◌, if◌then◌else◌,
}
use mpc_core.Prelude.Map
use mpc_core.Prelude.Map.{HashMap, get-put}
use mpc_core.Operation.{WireId}
use mpc_core.Execution.Methods.{no_inputs_yet}

-- Counts and lengths.
abbrev without : ℕ → List ℕ → List ℕ
without x [] = []
without x (y ∷ ys) = if y == x then ys else y ∷ without x ys

length-without : (x : ℕ) (ys : List ℕ) → 0 < count x ys → suc (length (without x ys)) ≡ length ys
length-without x [] h = absurd (omega arith)
length-without x (y ∷ ys) h = ground (arith, length-without x ys)

count-without_other : (x c : ℕ) (ys : List ℕ) → x ≢ c → count c (without x ys) ≡ count c ys
count-without_other x c [] h = refl
count-without_other x c (y ∷ ys) h = ground (arith, count-without_other x c ys)

count-without_self :
    (x : ℕ) (ys : List ℕ) → 0 < count x ys → suc (count x (without x ys)) ≡ count x ys
count-without_self x [] h = absurd (omega arith)
count-without_self x (y ∷ ys) h = ground (arith, count-without_self x ys)

-- A list in which nothing is more often is no longer.
pub length_le_of_count :
    (xs ys : List ℕ) → ((c : ℕ) → count c xs ≤ count c ys) → length xs ≤ length ys
length_le_of_count [] ys h = omega arith
length_le_of_count (x ∷ xs) ys h =
    let pos : 0 < count x ys = ground (arith, h x) in
    let rest = length_le_of_count xs (without x ys) λ c. elim (Bool-cases (x == c)) [
      | inl e ↦
          subst (λ k. count k xs ≤ count k (without x ys)) (==→≡ x c e)
            (ground (arith, h x, count-without_self x ys pos))
      | inr e ↦ ground (arith, h c, count-without_other x c ys (==→≢ x c e))
    ] in
    omega (arith, rest, length-without x ys pos)

-- The keys of the map of inputs.
abbrev pub keys : HashMap Bool → List WireId
keys m = map (λ e. e.0) m

count-put_self :
    (m : HashMap Bool) (w : WireId) (b : Bool)
    → count w (keys m) ≤ 1
    → count w (keys (Map.put m w b)) ≡ 1
unfolding Map.put
count-put_self [] w b h = ground arith
count-put_self ((j, v) ∷ m) w b h = ground (arith, count-put_self m w b)

count-put_other :
    (m : HashMap Bool) (w k : WireId) (b : Bool)
    → w ≢ k
    → count k (keys (Map.put m w b)) ≡ count k (keys m)
unfolding Map.put
count-put_other [] w k b h = ground arith
count-put_other ((j, v) ∷ m) w k b h = ground (arith, count-put_other m w k b)

at_most_one : (ws : List WireId) (k : WireId) → count k (keys (no_inputs_yet ws)) ≤ 1
unfolding no_inputs_yet
at_most_one [] k = omega arith
at_most_one (w ∷ ws) k = elim (Bool-cases (w == k)) [
  | inl e ↦
      subst (λ j. count j (keys (Map.put (no_inputs_yet ws) w false)) ≤ 1) (==→≡ w k e)
        (omega (arith, count-put_self (no_inputs_yet ws) w false (at_most_one ws w)))
  | inr e ↦
      omega (arith, count-put_other (no_inputs_yet ws) w k false (==→≢ w k e), at_most_one ws k)
]

-- A wire of the list is there once, without an input; any other wire is not there.
pub no_inputs_yet_lem :
    (ws : List WireId) (k : WireId)
    → ((count k (keys (no_inputs_yet ws)) ≡ 1)
        × (Map.get (no_inputs_yet ws) k ≡ some false)
        × k ∈ ws)
      ⊎ ((count k (keys (no_inputs_yet ws)) ≡ 0)
          × (Map.get (no_inputs_yet ws) k ≡ none)
          × (k ∈ ws → ⊥))
unfolding no_inputs_yet Map.get
no_inputs_yet_lem [] k = inr (refl, refl, λ h. h)
no_inputs_yet_lem (w ∷ ws) k = elim (Bool-cases (w == k)) [
  | inl e ↦
      let is : w ≡ k = ==→≡ w k e in
      let at_most : count w (keys (no_inputs_yet ws)) ≤ 1 = at_most_one ws w in
      inl (
        subst (λ j. count j (keys (Map.put (no_inputs_yet ws) w false)) ≡ 1) is
            (count-put_self (no_inputs_yet ws) w false at_most),
        rw (get-put (no_inputs_yet ws) w k false, e) refl,
        inl (sym is),
      )
  | inr e ↦
      let ne : w ≢ k = ==→≢ w k e in
      let same = count-put_other (no_inputs_yet ws) w k false ne in
      elim (no_inputs_yet_lem ws k) [
        | inl (c, g, m) ↦ inl (same ∙ c, rw (get-put (no_inputs_yet ws) w k false, e) g, inr m)
        | inr (c, g, m) ↦ inr (
          same ∙ c,
          rw (get-put (no_inputs_yet ws) w k false, e) g,
          elim [ inl is ↦ ne (sym is) | inr n ↦ m n ],
        )
      ]
]

pub length-keys : (m : HashMap Bool) → length (keys m) ≡ length m
length-keys [] = refl
length-keys (e ∷ m) = ap suc (length-keys m)
