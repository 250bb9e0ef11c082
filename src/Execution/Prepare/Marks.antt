-- ===== src/Execution/Prepare/Marks.antt =====
-- src/mpc/execution.rs, `prepare_input`: which inputs pass the loop and the test of their number.
use mpc_core.Prelude.{
  suc, ◌≤◌, ◌<◌, ◌≡◌, ◌≢◌, refl, ◌∙◌, sym, ap, subst, Bool, true, false, none, some, List, [], ◌∷◌,
}
use mpc_core.Prelude.{
  ok, err, panic, out_of_fuel, Outcome, count, length, arith, ◌⊎◌, inl, inr, Bool-cases,
  Option-cases, ◌==◌, ==→≡, ◌∈◌, All,
}
use mpc_core.Prelude.{mem-of_count, count-pos_of_mem}
use mpc_core.Prelude.Map
use mpc_core.Prelude.Map.{HashMap, get-put}
use mpc_core.Operation.{WireId}
use mpc_core.Execution.{
  ExecutionContextError, state_error, plan_not_agreed, scheme_error, duplicate_input,
  invalid_input_wire, not_enough_inputs,
}
use mpc_core.Execution.Methods.{mark_inputs, no_inputs_yet}
use mpc_core.Execution.Inputs.{wires_of, AreFresh}
use mpc_core.Execution.Prepare.Keys.{keys, length_le_of_count, no_inputs_yet_lem, length-keys}

still_true :
    (m : HashMap Bool) (w v : WireId)
    → Map.get (Map.put m w true) v ≡ some true
    → (w ≡ v) ⊎ (Map.get m v ≡ some true)
still_true m w v h = elim (Bool-cases (w == v)) [
  | inl e ↦ inl (==→≡ w v e)
  | inr e ↦ inr (rw (get-put m w v true, e) at h)
]

still_none :
    (m : HashMap Bool) (w v : WireId) → Map.get (Map.put m w true) v ≡ none → Map.get m v ≡ none
still_none m w v h = elim (Bool-cases (w == v)) [
  | inl e ↦ let bad = rw (get-put m w v true, e) at h in cc
  | inr e ↦ rw (get-put m w v true, e) at h
]

pub never_true : (ws : List WireId) (w : WireId) → Map.get (no_inputs_yet ws) w ≢ some true
never_true ws w h = elim (no_inputs_yet_lem ws w) [
  | inl (n, g, own) ↦ let bad = sym h ∙ g in cc
  | inr (n, g, out) ↦ let bad = sym h ∙ g in cc
]

pub not_listed : (ws : List WireId) (w : WireId) → Map.get (no_inputs_yet ws) w ≡ none → ¬ (w ∈ ws)
not_listed ws w h = elim (no_inputs_yet_lem ws w) [
  | inl (n, g, own) ↦ let bad = sym h ∙ g in cc
  | inr (n, g, out) ↦ out
]

module _ {Input : Type 0} where
  length-wires_of : (ins : List (WireId × Input)) → length (wires_of ins) ≡ length ins
  length-wires_of [] = refl
  length-wires_of (e ∷ ins) = ap suc (length-wires_of ins)

  -- What an error of the loop over the inputs says.
  abbrev pub Failed :
      HashMap Bool → List (WireId × Input) → Outcome ExecutionContextError (HashMap Bool) → Type 0
  Failed m ins (ok n) = Unit
  Failed m ins (err (duplicate_input w)) =
      ((Map.get m w ≡ some true) × w ∈ wires_of ins) ⊎ (1 < count w (wires_of ins))
  Failed m ins (err (invalid_input_wire w)) = (w ∈ wires_of ins) × (Map.get m w ≡ none)
  Failed m ins _ = ⊥

  Failed-cons :
      (m : HashMap Bool) (w : WireId) (x : Input) (ins : List (WireId × Input))
      (o : Outcome ExecutionContextError (HashMap Bool))
      → Failed (Map.put m w true) ins o
      → Failed m ((w, x) ∷ ins) o
  Failed-cons m w x ins (ok n) h = tt
  Failed-cons m w x ins (err (duplicate_input v)) (inl (g, at)) = elim (still_true m w v g) [
    | inl e ↦ inr (ground (arith, e, count-pos_of_mem v (wires_of ins) at))
    | inr t ↦ inl (t, inr at)
  ]
  Failed-cons m w x ins (err (duplicate_input v)) (inr more) = inr (ground (arith, more))
  Failed-cons m w x ins (err (invalid_input_wire v)) (at, g) = (inr at, still_none m w v g)
  Failed-cons m w x ins (err (state_error _ _)) h = absurd h
  Failed-cons m w x ins (err plan_not_agreed) h = absurd h
  Failed-cons m w x ins (err not_enough_inputs) h = absurd h
  Failed-cons m w x ins (err scheme_error) h = absurd h
  Failed-cons m w x ins panic h = absurd h
  Failed-cons m w x ins out_of_fuel h = absurd h

  pub mark_inputs-Failed :
      (m : HashMap Bool) (ins : List (WireId × Input)) → Failed m ins (mark_inputs m ins)
  unfolding mark_inputs
  mark_inputs-Failed m [] = tt
  mark_inputs-Failed m ((w, x) ∷ ins) = elim (Option-cases (Map.get m w)) [
    | inl e ↦ rw (mark_inputs, e) (inl refl, e)
    | inr (true, e) ↦ rw (mark_inputs, e) (inl (e, inl refl))
    | inr (false, e) ↦
        rw (mark_inputs, e)
          (Failed-cons m w x ins (mark_inputs (Map.put m w true) ins)
            (mark_inputs-Failed (Map.put m w true) ins))
  ]

  -- Inputs for the wires `ws`: each of them once, and no other wire.
  abbrev pub AreExact : List WireId → List (WireId × Input) → WireId → Type 0
  AreExact ws ins w =
      ((count w (wires_of ins) ≡ 1) × w ∈ ws) ⊎ ((count w (wires_of ins) ≡ 0) × (w ∈ ws → ⊥))

  fresh_at :
      (m : HashMap Bool) (ins : List (WireId × Input)) (w : WireId)
      → All (λ e. Map.get m e.0 ≡ some false) ins
      → w ∈ wires_of ins
      → Map.get m w ≡ some false
  fresh_at m [] w all at = absurd at
  fresh_at m ((v, x) ∷ ins) w all (inl e) = ap (Map.get m) e ∙ all.0
  fresh_at m ((v, x) ∷ ins) w all (inr at) = fresh_at m ins w all.1 at

  within_keys :
      (ws : List WireId) (ins : List (WireId × Input)) (w : WireId)
      → AreFresh (no_inputs_yet ws) ins
      → count w (wires_of ins) ≤ count w (keys (no_inputs_yet ws))
  within_keys ws ins w (all, once) = elim (no_inputs_yet_lem ws w) [
    | inl (n, g, at) ↦ omega (arith, n, once w)
    | inr (n, g, out) ↦ elim (Bool-cases (count w (wires_of ins) == 0)) [
      | inl e ↦ omega (arith, ==→≡ (count w (wires_of ins)) 0 e)
      | inr e ↦
          let at : w ∈ wires_of ins = mem-of_count w (wires_of ins) (ground (arith, e)) in
          let bad = fresh_at (no_inputs_yet ws) ins w all at in cc
    ]
  ]

  -- Accepted inputs that are enough are exact.
  pub exact_of_accepted :
      (ws : List WireId) (ins : List (WireId × Input))
      → AreFresh (no_inputs_yet ws) ins
      → length (no_inputs_yet ws) ≤ length ins
      → (w : WireId) → AreExact ws ins w
  exact_of_accepted ws ins fresh enough w = elim (no_inputs_yet_lem ws w) [
    | inr (n, g, out) ↦ inr (omega (arith, n, within_keys ws ins w fresh), out)
    | inl (n, g, at) ↦ elim (Bool-cases (count w (wires_of ins) == 0)) [
      | inr e ↦ inl (ground (arith, e, fresh.1 w), at)
      | inl e ↦
          let shorter =
            length_le_of_count (w ∷ wires_of ins) (keys (no_inputs_yet ws))
              λ c. ground (arith, e, n, within_keys ws ins c fresh) in
          absurd
            (omega (arith, shorter, length-keys (no_inputs_yet ws), length-wires_of ins, enough))
    ]
  ]

  missing_or_given :
      (ws : List WireId) (ins : List (WireId × Input))
      → ((w : WireId) × w ∈ ws × (count w (wires_of ins) ≡ 0))
        ⊎ ((w : WireId) → w ∈ ws → 0 < count w (wires_of ins))
  missing_or_given [] ins = inr (λ w m. absurd m)
  missing_or_given (v ∷ ws) ins = elim (Bool-cases (count v (wires_of ins) == 0)) [
    | inl e ↦ inl (v, inl refl, ==→≡ (count v (wires_of ins)) 0 e)
    | inr e ↦ elim (missing_or_given ws ins) [
      | inl (w, m, n) ↦ inl (w, inr m, n)
      | inr all ↦ inr (λ w m. elim m [
        | inl is ↦ subst (λ k. 0 < count k (wires_of ins)) (sym is) (ground (arith, e))
        | inr m ↦ all w m
      ])
    ]
  ]

  -- With too few inputs, one of the wires has none.
  pub missing_input :
      (ws : List WireId) (ins : List (WireId × Input))
      → length ins < length (no_inputs_yet ws)
      → (w : WireId) × w ∈ ws × (count w (wires_of ins) ≡ 0)
  missing_input ws ins few = elim (missing_or_given ws ins) [
    | inl h ↦ h
    | inr all ↦
        let covered = length_le_of_count (keys (no_inputs_yet ws)) (wires_of ins) λ w.
          elim (no_inputs_yet_lem ws w) [
            | inl (n, g, own) ↦ omega (arith, n, all w own)
            | inr (n, g, out) ↦ omega (arith, n)
          ] in
        absurd (omega (arith, covered, few, length-keys (no_inputs_yet ws), length-wires_of ins))
  ]
