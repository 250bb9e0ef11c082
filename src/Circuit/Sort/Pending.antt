-- ===== src/Circuit/Sort/Pending.antt =====
-- What the sort has still to do: the edges out of operations not yet taken, the operations that
-- wait in a queue, and the operations that are blocked by a producer.
use mpc_core.Prelude.{ℕ, zero, suc, ◌+◌, ◌≤◌, ◌<◌, ◌≡◌, refl, Option, none, some, List, [], ◌∷◌}
use mpc_core.Prelude.{get_elem?, set, count, arith, if◌then◌else◌, ◌==◌, inl, inr, Zero-cases}

module _ {Op : Type 0} where
  -- The number of edges into `c` out of operations that are not taken.
  unfoldable pub need : List (Option Op) → List (List ℕ) → ℕ → ℕ
  need [] adj c = 0
  need (o ∷ ops) [] c = 0
  need (none ∷ ops) (a ∷ adj) c = need ops adj c
  need (some op ∷ ops) (a ∷ adj) c = count c a + need ops adj c

  -- The number of operations not taken whose degree is not 0.
  unfoldable pub blocked : List (Option Op) → List ℕ → ℕ
  blocked [] ds = 0
  blocked (o ∷ ops) [] = 0
  blocked (some op ∷ ops) (suc d ∷ ds) = suc (blocked ops ds)
  blocked (some op ∷ ops) (zero ∷ ds) = blocked ops ds
  blocked (none ∷ ops) (d ∷ ds) = blocked ops ds

  abbrev pub is_ready : Option (Option Op) → Option ℕ → ℕ
  is_ready (some (some op)) (some zero) = 1
  is_ready _ _ = 0

  -- How often `c` should stand in the queues.
  abbrev pub waiting : List (Option Op) → List ℕ → ℕ → ℕ
  waiting ops ds c = is_ready (get_elem? ops c) (get_elem? ds c)

  -- The operations that are not taken.
  unfoldable pub present : List (Option Op) → List Op
  present [] = []
  present (none ∷ ops) = present ops
  present (some op ∷ ops) = op ∷ present ops

  pub need-set :
      (ops : List (Option Op)) (adj : List (List ℕ)) (i c : ℕ) {op : Op} {a : List ℕ}
      → get_elem? ops i ≡ some (some op)
      → get_elem? adj i ≡ some a
      → need ops adj c ≡ count c a + need (set ops i none) adj c
  unfolding need
  need-set [] adj i c h k = cc
  need-set (o ∷ ops) [] i c h k = cc
  need-set (none ∷ ops) (a ∷ adj) zero c h k = cc
  need-set (some op ∷ ops) (a ∷ adj) zero c h k = ground arith
  need-set (none ∷ ops) (a ∷ adj) (suc i) c h k = need-set ops adj i c h k
  need-set (some op ∷ ops) (a ∷ adj) (suc i) c h k = omega (arith, need-set ops adj i c h k)

  -- An edge out of an operation that is not taken counts.
  pub need-pos :
      (ops : List (Option Op)) (adj : List (List ℕ)) (p c : ℕ) {op : Op} {a : List ℕ}
      → get_elem? ops p ≡ some (some op)
      → get_elem? adj p ≡ some a
      → 0 < count c a
      → 0 < need ops adj c
  need-pos ops adj p c h k pos = omega (arith, need-set ops adj p c h k)

  -- Where something is needed, an operation that is not taken has an edge.
  pub need-witness :
      (ops : List (Option Op)) (adj : List (List ℕ)) (c : ℕ)
      → 0 < need ops adj c
      → (p : ℕ) × (op : Op) × (a : List ℕ) × (get_elem? ops p ≡ some (some op))
        × (get_elem? adj p ≡ some a)
        × (0 < count c a)
  unfolding need
  need-witness [] adj c h = absurd (omega arith)
  need-witness (o ∷ ops) [] c h = absurd (omega arith)
  need-witness (none ∷ ops) (a ∷ adj) c h =
      let (p, op, b, e, k, pos) = need-witness ops adj c h in (suc p, op, b, e, k, pos)
  need-witness (some op ∷ ops) (a ∷ adj) c h = elim (Zero-cases (count c a)) [
    | inl e ↦
        let (p, o, b, e', k', pos) = need-witness ops adj c (omega arith) in
        (suc p, o, b, e', k', pos)
    | inr pos ↦ (zero, op, a, refl, refl, pos)
  ]

  pub blocked-set_degree :
      (ops : List (Option Op)) (ds : List ℕ) (c d : ℕ) {op : Op}
      → get_elem? ops c ≡ some (some op)
      → get_elem? ds c ≡ some (suc d)
      → blocked ops ds
        ≡ (if d == 0 then suc (blocked ops (set ds c d)) else blocked ops (set ds c d))
  unfolding blocked
  blocked-set_degree [] ds c d h k = cc
  blocked-set_degree (o ∷ ops) [] c d h k = cc
  blocked-set_degree (none ∷ ops) (e ∷ ds) zero d h k = cc
  blocked-set_degree (some op ∷ ops) (zero ∷ ds) zero d h k = cc
  blocked-set_degree (some op ∷ ops) (suc e ∷ ds) zero zero h k = refl
  blocked-set_degree (some op ∷ ops) (suc e ∷ ds) zero (suc d) h k = ground arith
  blocked-set_degree (none ∷ ops) (e ∷ ds) (suc c) d h k = blocked-set_degree ops ds c d h k
  blocked-set_degree (some op ∷ ops) (zero ∷ ds) (suc c) d h k = blocked-set_degree ops ds c d h k
  blocked-set_degree (some op ∷ ops) (suc e ∷ ds) (suc c) d h k =
      ground (arith, blocked-set_degree ops ds c d h k)

  pub blocked-set_taken :
      (ops : List (Option Op)) (ds : List ℕ) (i : ℕ)
      → get_elem? ds i ≡ some zero
      → blocked (set ops i none) ds ≡ blocked ops ds
  unfolding blocked
  blocked-set_taken [] ds i h = refl
  blocked-set_taken (o ∷ ops) [] i h = cc
  blocked-set_taken (none ∷ ops) (d ∷ ds) zero h = refl
  blocked-set_taken (some op ∷ ops) (zero ∷ ds) zero h = refl
  blocked-set_taken (some op ∷ ops) (suc d ∷ ds) zero h = cc
  blocked-set_taken (none ∷ ops) (d ∷ ds) (suc i) h = blocked-set_taken ops ds i h
  blocked-set_taken (some op ∷ ops) (zero ∷ ds) (suc i) h = blocked-set_taken ops ds i h
  blocked-set_taken (some op ∷ ops) (suc d ∷ ds) (suc i) h =
      omega (arith, blocked-set_taken ops ds i h)

  -- A queued operation is not taken, and its degree is 0.
  pub is_ready-pos :
      (o : Option (Option Op)) (d : Option ℕ)
      → 0 < is_ready o d
      → (op : Op) × (o ≡ some (some op)) × (d ≡ some zero)
  is_ready-pos (some (some op)) (some zero) h = (op, refl, refl)
  is_ready-pos (some (some op)) (some (suc d)) h = absurd (omega arith)
  is_ready-pos (some (some op)) none h = absurd (omega arith)
  is_ready-pos (some none) d h = absurd (omega arith)
  is_ready-pos none d h = absurd (omega arith)

  pub is_ready-le : (o : Option (Option Op)) (d : Option ℕ) → is_ready o d ≤ 1
  is_ready-le (some (some op)) (some zero) = omega arith
  is_ready-le (some (some op)) (some (suc d)) = omega arith
  is_ready-le (some (some op)) none = omega arith
  is_ready-le (some none) d = omega arith
  is_ready-le none d = omega arith
