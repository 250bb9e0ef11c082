-- ===== src/Additive/Sound/Passes.antt =====
-- src/example/additive.rs, `is_circuit_sound`: when its passes end.
use mpc_core.Prelude.{ℕ, zero, suc, ◌≤◌, ◌<◌, ◌≡◌, refl, ◌∙◌, sym, ap, Bool, true, false, not, ◌||◌}
use mpc_core.Prelude.{none, some, List, [], ◌∷◌, length, ok, out_of_fuel, ◌==◌}
use mpc_core.Prelude.{◌∈◌, inl, inr, arith, Bool-cases, Option-cases, ==→≡, ==_refl}
use mpc_core.Prelude.{◌⊎◌}
use mpc_core.Prelude.Map
use mpc_core.Prelude.Map.{HashMap, get-put}
use mpc_core.Operation.{WireId}
use mpc_core.Additive.{AdditiveOperation, input, gen_random, add, reveal, output_of}
use mpc_core.Additive.Sound.{WireType, shared, public, same_type, sum_type, new_type}
use mpc_core.Additive.Sound.{type_output, type_pass, type_loop, is_circuit_sound}

-- Operations with the same output are the same.
abbrev pub IsUnambiguous : List AdditiveOperation → Type 0
IsUnambiguous ops =
    (p q : AdditiveOperation) → p ∈ ops → q ∈ ops → output_of p ≡ output_of q → p ≡ q

-- The number of operations whose output has no type yet.
unfoldable pub untyped : HashMap WireType → List AdditiveOperation → ℕ
untyped t [] = 0
untyped t (op ∷ ops) =
    let rest = untyped t ops in elim (Map.get t (output_of op)) [ none ↦ suc rest | some _ ↦ rest ]

untyped-le : (t : HashMap WireType) (ops : List AdditiveOperation) → untyped t ops ≤ length ops
unfolding untyped
untyped-le t [] = omega arith
untyped-le t (op ∷ ops) = ground (arith, untyped-le t ops)

-- A typed wire has the type that its operation gives now.
abbrev IsStable : List AdditiveOperation → HashMap WireType → Type 0
IsStable ops t =
    (op : AdditiveOperation) (ty : WireType)
    → op ∈ ops
    → Map.get t (output_of op) ≡ some ty
    → new_type t op ≡ some ty

get-put_fresh :
    (t : HashMap WireType) (w k : WireId) (ty s : WireType)
    → Map.get t w ≡ none
    → Map.get t k ≡ some s
    → Map.get (Map.put t w ty) k ≡ some s
get-put_fresh t w k ty s fresh h = elim (Bool-cases (w == k)) [
  | inl e ↦ let same = ap (Map.get t) (==→≡ w k e) in cc
  | inr e ↦ rw (get-put t w k ty, e) h
]

sum_type_none : {A : Type 0} (x : WireType) {s : WireType} → sum_type (some x) none ≡ some s → A
sum_type_none shared h = cc
sum_type_none public h = cc

-- A new wire's type changes no type that an operation gives already.
new_type-put :
    (t : HashMap WireType) (w : WireId) (ty s : WireType) (op : AdditiveOperation)
    → Map.get t w ≡ none
    → new_type t op ≡ some s
    → new_type (Map.put t w ty) op ≡ some s
unfolding new_type
new_type-put t w ty s (input p v) fresh h = h
new_type-put t w ty s (gen_random v) fresh h = h
new_type-put t w ty s (reveal u v) fresh h = h
new_type-put t w ty s (add l r v) fresh h = elim (Option-cases (Map.get t l)) [
  | inl a ↦ let bad = rw a at h in cc
  | inr (x, a) ↦ elim (Option-cases (Map.get t r)) [
    | inl b ↦ sum_type_none x (rw (a, b) at h)
    | inr (y, b) ↦
        rw (get-put_fresh t w l ty x fresh a, get-put_fresh t w r ty y fresh b) (rw (a, b) at h)
  ]
]

untyped-put_le :
    (t : HashMap WireType) (w : WireId) (ty : WireType) (ops : List AdditiveOperation)
    → untyped (Map.put t w ty) ops ≤ untyped t ops
unfolding untyped
untyped-put_le t w ty [] = omega arith
untyped-put_le t w ty (op ∷ ops) =
    ground (arith, untyped-put_le t w ty ops, get-put t w (output_of op) ty)

untyped-put_lt :
    (t : HashMap WireType) (ty : WireType) (op : AdditiveOperation) (ops : List AdditiveOperation)
    → Map.get t (output_of op) ≡ none
    → op ∈ ops
    → untyped (Map.put t (output_of op) ty) ops < untyped t ops
unfolding untyped
untyped-put_lt t ty op [] fresh h = absurd h
untyped-put_lt t ty op (o ∷ ops) fresh (inl e) = ground (
  arith,
  untyped-put_le t (output_of op) ty ops,
  get-put t (output_of op) (output_of o) ty,
  ap output_of e,
  ==_refl (output_of o),
)
untyped-put_lt t ty op (o ∷ ops) fresh (inr h) =
    ground (arith, untyped-put_lt t ty op ops fresh h, get-put t (output_of op) (output_of o) ty)

-- Writing the type that a wire has changes nothing.
get-put_same :
    (t : HashMap WireType) (w k : WireId) (ty : WireType)
    → Map.get t w ≡ some ty
    → Map.get (Map.put t w ty) k ≡ Map.get t k
get-put_same t w k ty h = elim (Bool-cases (w == k)) [
  | inl e ↦ rw (get-put t w k ty, e) (sym h ∙ ap (Map.get t) (==→≡ w k e))
  | inr e ↦ rw (get-put t w k ty, e) refl
]

new_type-put_same :
    (t : HashMap WireType) (w : WireId) (ty : WireType) (op : AdditiveOperation)
    → Map.get t w ≡ some ty
    → new_type (Map.put t w ty) op ≡ new_type t op
unfolding new_type
new_type-put_same t w ty (input p v) h = refl
new_type-put_same t w ty (gen_random v) h = refl
new_type-put_same t w ty (reveal u v) h = refl
new_type-put_same t w ty (add l r v) h = rw (get-put_same t w l ty h, get-put_same t w r ty h) refl

same_type_refl : (ty : WireType) → same_type ty ty ≡ true
same_type_refl shared = refl
same_type_refl public = refl

put_fresh-IsStable :
    (ops : List AdditiveOperation) (t : HashMap WireType) (op : AdditiveOperation) (ty : WireType)
    → IsUnambiguous ops
    → op ∈ ops
    → new_type t op ≡ some ty
    → Map.get t (output_of op) ≡ none
    → IsStable ops t
    → IsStable ops (Map.put t (output_of op) ty)
put_fresh-IsStable ops t op ty one m e fresh stable q s n h =
    elim (Bool-cases (output_of op == output_of q)) [
      | inl same ↦
          let h' = rw (get-put t (output_of op) (output_of q) ty, same) at h in
          let eq : op ≡ q = one op q m n (==→≡ (output_of op) (output_of q) same) in
          ap (new_type (Map.put t (output_of op) ty)) (sym eq)
          ∙ new_type-put t (output_of op) ty ty op fresh e
          ∙ h'
      | inr other ↦
          let h' = rw (get-put t (output_of op) (output_of q) ty, other) at h in
          new_type-put t (output_of op) ty s q fresh (stable q s n h')
    ]

-- A pass keeps the table stable; if it changes anything, a wire gets its first type.
record Passed (ops : List AdditiveOperation) (t : HashMap WireType) (changed : Bool)
    (s : HashMap WireType × Bool) : Type 0 where
  stable : IsStable ops s.0
  fewer : untyped s.0 ops ≤ untyped t ops
  progress : s.1 ≡ true → (changed ≡ true) ⊎ (untyped s.0 ops < untyped t ops)

some-inj : {a b : WireType} → some a ≡ some b → a ≡ b
some-inj h = cc

no_change : (changed : Bool) → (changed || false) ≡ true → changed ≡ true
no_change true h = refl
no_change false h = h

type_output-Passed :
    (ops : List AdditiveOperation) (t : HashMap WireType) (changed : Bool) (op : AdditiveOperation)
    → IsUnambiguous ops
    → op ∈ ops
    → IsStable ops t
    → Passed ops t changed (type_output (new_type t op) (output_of op) (t, changed))
type_output-Passed ops t changed op one m stable = elim (Option-cases (new_type t op)) [
  | inl e ↦ rw e (record { stable = stable; fewer = omega arith; progress = λ h. inl h })
  | inr (ty, e) ↦ elim (Option-cases (Map.get t (output_of op))) [
    | inl fresh ↦ rw e (record {
      stable = put_fresh-IsStable ops t op ty one m e fresh stable;
      fewer = untyped-put_le t (output_of op) ty ops;
      progress = λ h. inr (untyped-put_lt t ty op ops fresh m);
    })
    | inr (old, typed) ↦
        let same : old ≡ ty = some-inj (sym (stable op old m typed) ∙ e) in
        let typed' : Map.get t (output_of op) ≡ some ty = typed ∙ ap some same in
        rw e (record {
          stable = λ q s n h.
              new_type-put_same t (output_of op) ty q typed'
              ∙ stable q s n (sym (get-put_same t (output_of op) (output_of q) ty typed') ∙ h);
          fewer = untyped-put_le t (output_of op) ty ops;
          progress = λ h. inl (no_change changed (rw (typed', same_type_refl ty) at h));
        })
  ]
]

type_pass-Passed :
    (ops : List AdditiveOperation)
    → IsUnambiguous ops
    → (rest : List AdditiveOperation) (t : HashMap WireType) (changed : Bool)
    → ((op : AdditiveOperation) → op ∈ rest → op ∈ ops)
    → IsStable ops t
    → Passed ops t changed (type_pass rest (t, changed))
unfolding type_pass
type_pass-Passed ops one [] t changed within stable = record {
  stable = stable;
  fewer = omega arith;
  progress = λ h. inl h;
}
type_pass-Passed ops one (op ∷ rest) t changed within stable =
    let s = type_output (new_type t op) (output_of op) (t, changed) in
    let first = type_output-Passed ops t changed op one (within op (inl refl)) stable in
    let later = type_pass-Passed ops one rest s.0 s.1 (λ q n. within q (inr n)) first.stable in
    record {
      stable = later.stable;
      fewer = omega (arith, first.fewer, later.fewer);
      progress = λ h. elim (later.progress h) [
        | inl c ↦ elim (first.progress c) [
          | inl d ↦ inl d
          | inr d ↦ inr (omega (arith, d, later.fewer))
        ]
        | inr d ↦ inr (omega (arith, d, first.fewer))
      ];
    }

type_loop-ends :
    (ops : List AdditiveOperation)
    → IsUnambiguous ops
    → (fuel : ℕ) (t : HashMap WireType) → IsStable ops t
    → untyped t ops < fuel
    → type_loop fuel ops t ≡ ok true
unfolding type_loop
type_loop-ends ops one zero t stable h = absurd (omega arith)
type_loop-ends ops one (suc fuel) t stable h =
    let p = type_pass-Passed ops one ops t false (λ q n. n) stable in
    elim (Bool-cases (type_pass ops (t, false)).1) [
      | inr e ↦ rw e refl
      | inl e ↦ elim (p.progress e) [
        | inl c ↦ cc
        | inr d ↦
            rw (e, type_loop-ends ops one fuel (type_pass ops (t, false)).0 p.stable (omega arith))
              refl
      ]
    ]

unknown : {A : Type 0} {s : WireType} (w : WireId) → Map.get [] w ≡ some s → A
unfolding Map.get
unknown w h = cc

-- If operations with the same output are the same, the passes end, within one more than there are
-- operations, and the function returns whether `M` is not 0: the types are not looked at.
pub is_circuit_sound_lem :
    (m : ℕ) (ops : List AdditiveOperation)
    → IsUnambiguous ops
    → is_circuit_sound m (suc (length ops)) ops ≡ ok (not (m == 0))
unfolding is_circuit_sound
is_circuit_sound_lem m ops one = elim (Bool-cases (m == 0)) [
  | inl e ↦ rw e refl
  | inr e ↦
      rw
        (
          e,
          type_loop-ends ops one (suc (length ops)) [] (λ q s n h. unknown (output_of q) h)
              (omega (arith, untyped-le [] ops)),
        )
        refl
]

type_loop-again :
    (fuel : ℕ) (ops : List AdditiveOperation) (t u : HashMap WireType)
    → type_pass ops (t, false) ≡ (u, true)
    → type_loop (suc fuel) ops t ≡ type_loop fuel ops u
unfolding type_loop
type_loop-again fuel ops t u h = rw h refl

module _ (p : ℕ) (v w : WireId) where
  conflict_pass :
      (t : HashMap WireType)
      → (t ≡ []) ⊎ (t ≡ (w, public) ∷ [])
      → type_pass (input p w ∷ reveal v w ∷ []) (t, false) ≡ ((w, public) ∷ [], true)
  unfolding type_pass new_type Map.get Map.put
  conflict_pass t (inl e) = rw e (ground arith)
  conflict_pass t (inr e) = rw e (ground arith)

  conflict_loop :
      (fuel : ℕ) (t : HashMap WireType)
      → (t ≡ []) ⊎ (t ≡ (w, public) ∷ [])
      → type_loop fuel (input p w ∷ reveal v w ∷ []) t ≡ out_of_fuel
  unfolding type_loop
  conflict_loop zero t h = refl
  conflict_loop (suc fuel) t h =
      type_loop-again fuel (input p w ∷ reveal v w ∷ []) t ((w, public) ∷ []) (conflict_pass t h)
      ∙ conflict_loop fuel ((w, public) ∷ []) (inr refl)

  -- An input and a reveal with the same output change the wire's type twice in every pass, so for a
  -- modulus other than 0 no number of passes is enough.
  pub is_circuit_sound-endless :
      (m fuel : ℕ) → 0 < m → is_circuit_sound m fuel (input p w ∷ reveal v w ∷ []) ≡ out_of_fuel
  unfolding is_circuit_sound
  is_circuit_sound-endless m fuel pos =
      let nonzero : (m == 0) ≡ false = ground arith in rw nonzero (conflict_loop fuel [] (inl refl))
