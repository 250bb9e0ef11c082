-- ===== src/Circuit/Graph/Producers.antt =====
-- The table of wire producers: it holds the producer of each wire, or names a wire produced twice.
use mpc_core.Prelude.{ℕ, zero, suc, ◌+◌, ◌<◌, ◌≡◌, refl, ◌∙◌, sym, ap}
use mpc_core.Prelude.{
  Option, none, some, List, [], ◌∷◌, get_elem?, count, concat, map, arith, ok, err,
}
use mpc_core.Prelude.{◌⊎◌, inl, inr, Option-cases, count-append, ◌∈◌}
use mpc_core.Prelude.{subst}
use mathlib.Core.Option.{some-injective}
use mpc_core.Prelude.Map
use mpc_core.Prelude.Map.{HashMap, get-put}
use mpc_core.Operation.{WireId, Gates}
use mpc_core.Circuit.{wire_produced_many_times}
use mpc_core.Circuit.Graph.{insert_outputs, collect_producers}

-- 1 if the wire has an entry.
abbrev pub known' : Option ℕ → ℕ
known' none = 0
known' (some p) = 1

abbrev pub known : HashMap ℕ → WireId → ℕ
known m w = known' (Map.get m w)

-- The table after the outputs `ws` of operation `idx`.
record Inserted (idx : ℕ) (ws : List WireId) (m out : HashMap ℕ) : Type 0 where
  holds : (w : WireId) → w ∈ ws → Map.get out w ≡ some idx
  kept : (w : WireId) (p : ℕ) → Map.get m w ≡ some p → Map.get out w ≡ some p
  from :
      (w : WireId) (p : ℕ) → Map.get out w ≡ some p → (Map.get m w ≡ some p) ⊎ ((p ≡ idx) × w ∈ ws)
  seen : (w : WireId) → known out w ≡ known m w + count w ws

-- Either the table is extended, or a wire is named that has two producers.
insert_outputs-cases :
    (idx : ℕ) (ws : List WireId) (m : HashMap ℕ)
    → ((out : HashMap ℕ) × (insert_outputs idx ws m ≡ ok out) × Inserted idx ws m out)
      ⊎ ((w : WireId) × (insert_outputs idx ws m ≡ err (wire_produced_many_times w))
          × (1 < known m w + count w ws))
unfolding insert_outputs
insert_outputs-cases idx [] m = inl (
  m,
  refl,
  record {
    holds = λ w h. absurd h;
    kept = λ w p h. h;
    from = λ w p h. inl h;
    seen = λ w. omega arith;
  },
)
insert_outputs-cases idx (v ∷ ws) m = elim (Option-cases (Map.get m v)) [
  | inr (p, e) ↦ inr (v, rw (e, insert_outputs) refl, ground arith)
  | inl e ↦ elim (insert_outputs-cases idx ws (Map.put m v idx)) [
    | inl (out, returns, i) ↦ inl (
      out,
      rw (e, insert_outputs) returns,
      record {
        holds = λ w h. ground (arith, i.holds w, i.kept w idx, get-put m v w idx);
        kept = λ w p h. ground (arith, i.kept w p, get-put m v w idx);
        from = λ w p h. ground (arith, i.from w p, get-put m v w idx);
        seen = λ w. ground (arith, i.seen w, get-put m v w idx);
      },
    )
    | inr (w, fails, twice) ↦
        inr (w, rw (e, insert_outputs) fails, ground (arith, get-put m v w idx))
  ]
]

module _ (S : Gates) where
  open S use {Operation, outputs}

  -- The outputs of a list of operations.
  abbrev pub all_outputs : List Operation → List WireId
  all_outputs ops = concat (map outputs ops)

  -- Operation `k` of the list has `w` among its outputs.
  pub record Makes (ops : List Operation) (k : ℕ) (w : WireId) : Type 0 where
    pub op : Operation
    pub at : get_elem? ops k ≡ some op
    pub out : w ∈ outputs op

  -- The table after the operations `ops`, numbered from `idx` on.
  pub record Collected (idx : ℕ) (ops : List Operation) (m out : HashMap ℕ) : Type 0 where
    pub holds : (w : WireId) (k : ℕ) → Makes ops k w → Map.get out w ≡ some (idx + k)
    kept : (w : WireId) (p : ℕ) → Map.get m w ≡ some p → Map.get out w ≡ some p
    pub from :
        (w : WireId) (p : ℕ)
        → Map.get out w ≡ some p
        → (Map.get m w ≡ some p) ⊎ ((k : ℕ) × (p ≡ idx + k) × Makes ops k w)
    pub seen : (w : WireId) → known out w ≡ known m w + count w (all_outputs ops)

  collect-cons :
      {idx : ℕ} {op : Operation} {ops : List Operation} {m mid out : HashMap ℕ}
      → Inserted idx (outputs op) m mid
      → Collected (suc idx) ops mid out
      → Collected idx (op ∷ ops) m out
  collect-cons {idx} {op} {ops} {out = out} i c = record {
    holds = λ w k made. holds_at w k made;
    kept = λ w p h. c.kept w p (i.kept w p h);
    from = λ w p h. elim (c.from w p h) [
      | inl old ↦ elim (i.from w p old) [
        | inl older ↦ inl older
        | inr (e, mem) ↦ inr (zero, omega arith, record { op = op; at = refl; out = mem })
      ]
      | inr (k, e, made) ↦
          inr (suc k, omega arith, record { op = made.op; at = made.at; out = made.out })
    ];
    seen = λ w. omega (arith, i.seen w, c.seen w, count-append w (outputs op) (all_outputs ops));
  }
    where
      some_num : {a b : ℕ} → a ≡ b → some a ≡ some b
      some_num e = ap some e

      holds_at : (w : WireId) (k : ℕ) → Makes (op ∷ ops) k w → Map.get out w ≡ some (idx + k)
      holds_at w zero made =
          c.kept w idx (
            i.holds w
              (subst (λ o. w ∈ outputs o) (sym (some-injective op made.op made.at)) made.out))
          ∙ some_num (omega arith)
      holds_at w (suc k) made =
          c.holds w k (record { op = made.op; at = made.at; out = made.out })
          ∙ some_num (omega arith)

  pub collect_producers-cases :
      (idx : ℕ) (ops : List Operation) (m : HashMap ℕ)
      → ((out : HashMap ℕ) × (collect_producers S idx ops m ≡ ok out) × Collected idx ops m out)
        ⊎ ((w : WireId) × (collect_producers S idx ops m ≡ err (wire_produced_many_times w))
            × (1 < known m w + count w (all_outputs ops)))
  unfolding collect_producers
  collect_producers-cases idx [] m = inl (
    m,
    refl,
    record {
      holds = λ w k made. cc made.at;
      kept = λ w p h. h;
      from = λ w p h. inl h;
      seen = λ w. omega arith;
    },
  )
  collect_producers-cases idx (op ∷ ops) m = elim (insert_outputs-cases idx (outputs op) m) [
    | inr (w, fails, twice) ↦
        inr (w, rw fails refl, omega (arith, twice, count-append w (outputs op) (all_outputs ops)))
    | inl (mid, inserted, i) ↦ elim (collect_producers-cases (suc idx) ops mid) [
      | inl (out, returns, c) ↦ inl (out, rw inserted returns, collect-cons i c)
      | inr (w, fails, twice) ↦ inr (
        w,
        rw inserted fails,
        omega (arith, twice, i.seen w, count-append w (outputs op) (all_outputs ops)),
      )
    ]
  ]
