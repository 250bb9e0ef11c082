-- ===== src/Execution/Inputs.antt =====
-- src/mpc/execution.rs, `prepare_input`: which inputs of the user the loop accepts.
use mpc_core.Prelude.{◌≤◌, ◌≡◌, ◌≢◌, refl, Bool, true, false, some, List, [], ◌∷◌}
use mpc_core.Prelude.{
  ok, map, count, All, arith, ◌↔◌, inl, inr, Bool-cases, Option-cases, ◌==◌, ==→≢,
}
use mpc_core.Prelude.Map
use mpc_core.Prelude.Map.{HashMap, get-put}
use mpc_core.Operation.{WireId}
use mpc_core.Execution.Methods.{mark_inputs}

true≢false : some true ≢ some false
true≢false h = cc

still_false :
    (m : HashMap Bool) (w v : WireId)
    → Map.get (Map.put m w true) v ≡ some false
    → (w ≢ v) × (Map.get m v ≡ some false)
still_false m w v h = elim (Bool-cases (w == v)) [
  | inl e ↦ let h' = rw (get-put m w v true, e) at h in absurd (true≢false h')
  | inr e ↦ (==→≢ w v e, rw (get-put m w v true, e) at h)
]

module _ {Input : Type 0} where
  abbrev pub wires_of : List (WireId × Input) → List WireId
  wires_of ins = map (λ e. e.0) ins

  -- Each input is for a wire of the map that has none yet, and no wire is given twice.
  abbrev pub AreFresh : HashMap Bool → List (WireId × Input) → Type 0
  AreFresh m ins =
      All (λ e. Map.get m e.0 ≡ some false) ins × ((w : WireId) → count w (wires_of ins) ≤ 1)

  All-still_false :
      (m : HashMap Bool) (w : WireId) (ins : List (WireId × Input))
      → All (λ e. Map.get (Map.put m w true) e.0 ≡ some false) ins
      → All (λ e. Map.get m e.0 ≡ some false) ins × (count w (wires_of ins) ≡ 0)
  All-still_false m w [] h = (tt, refl)
  All-still_false m w ((v, x) ∷ ins) h =
      let (ne, now) = still_false m w v h.0 in
      let (rest, none_left) = All-still_false m w ins h.1 in
      ((now, rest), ground (arith, ne, none_left))

  All-false_after :
      (m : HashMap Bool) (w : WireId) (ins : List (WireId × Input))
      → All (λ e. Map.get m e.0 ≡ some false) ins
      → count w (wires_of ins) ≡ 0
      → All (λ e. Map.get (Map.put m w true) e.0 ≡ some false) ins
  All-false_after m w [] h n = tt
  All-false_after m w ((v, x) ∷ ins) h n = elim (Bool-cases (v == w)) [
    | inl e ↦ absurd (ground (arith, e))
    | inr e ↦
        let other : (w == v) ≡ false = ground arith in
        (rw (get-put m w v true, other) h.0, All-false_after m w ins h.1 (ground arith))
  ]

  accepted-AreFresh :
      (m n : HashMap Bool) (ins : List (WireId × Input)) → mark_inputs m ins ≡ ok n → AreFresh m ins
  unfolding mark_inputs
  accepted-AreFresh m n [] h = (tt, λ w. omega arith)
  accepted-AreFresh m n ((w, x) ∷ ins) h = elim (Option-cases (Map.get m w)) [
    | inl e ↦ let bad = rw (mark_inputs, e) at h in cc
    | inr (true, e) ↦ let bad = rw (mark_inputs, e) at h in cc
    | inr (false, e) ↦
        let (later, once) = accepted-AreFresh (Map.put m w true) n ins (rw (mark_inputs, e) at h) in
        let (rest, gone) = All-still_false m w ins later in
        ((e, rest), λ v. ground (arith, once v, gone))
  ]

  AreFresh-accepted :
      (m : HashMap Bool) (ins : List (WireId × Input))
      → AreFresh m ins
      → (n : HashMap Bool) × (mark_inputs m ins ≡ ok n)
  unfolding mark_inputs
  AreFresh-accepted m [] h = (m, refl)
  AreFresh-accepted m ((w, x) ∷ ins) ((e, rest), once) =
      let gone : count w (wires_of ins) ≡ 0 = ground (arith, once w) in
      let (n, runs) =
        AreFresh-accepted (Map.put m w true) ins
          (All-false_after m w ins rest gone, λ v. ground (arith, once v)) in
      (n, rw (mark_inputs, e) runs)

  -- The loop over the user's inputs accepts them just when each is for an input wire of the map that
  -- has none yet and no wire is given twice.
  pub mark_inputs_lem :
      (m : HashMap Bool) (ins : List (WireId × Input))
      → ((n : HashMap Bool) × (mark_inputs m ins ≡ ok n)) ↔ AreFresh m ins
  mark_inputs_lem m ins = (λ h. accepted-AreFresh m h.0 ins h.1, AreFresh-accepted m ins)
