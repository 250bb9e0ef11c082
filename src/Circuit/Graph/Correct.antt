-- ===== src/Circuit/Graph/Correct.antt =====
-- `build_graph` links every operation to the producers of its input wires, or reports a wire that is
-- produced twice or not at all; it does not panic.
use mpc_core.Prelude.{ℕ, zero, suc, ◌+◌, ◌≤◌, ◌<◌, ◌≡◌, refl, ◌∙◌, sym}
use mpc_core.Prelude.{
  Option, none, some, List, [], ◌∷◌, get_elem?, get_or, count, length, arith, ok, err,
}
use mpc_core.Prelude.{◌⊎◌, inl, inr, ◌∈◌, replicate}
use mpc_core.Prelude.{lt-get_elem?, length-replicate, subst}
use mathlib.Core.Option.{some-injective}
use mpc_core.Prelude.Map
use mpc_core.Prelude.Map.{HashMap}
use mpc_core.Operation.{WireId, Gates}
use mpc_core.Circuit.{wire_produced_many_times, wire_consumed_but_not_produced}
use mpc_core.Circuit.Graph.{Graph, connect_consumers, build_graph}
use mpc_core.Circuit.Graph.Producers.{
  Makes, Collected, all_outputs, collect_producers-cases, known',
}
use mpc_core.Circuit.Graph.Edges.{HasEdge, IsCounted, Connected, connect_inputs-cases, edges_into}

module _ (S : Gates) where
  open S use {Operation, inputs, outputs}

  -- Operation `k` of the list has `w` among its inputs.
  pub record Takes (ops : List Operation) (k : ℕ) (w : WireId) : Type 0 where
    pub op : Operation
    pub at : get_elem? ops k ≡ some op
    pub takes : w ∈ inputs op

  module _ (table : HashMap ℕ) (n : ℕ)
      (bounded : (w : WireId) (p : ℕ) → Map.get table w ≡ some p → p < n) where
    -- The graph after the operations `ops`, numbered from `idx` on.
    record Linked (idx : ℕ) (ops : List Operation) (g out : Graph) : Type 0 where
      counted : IsCounted n out
      kept : (q x : ℕ) → HasEdge g.adj q x → HasEdge out.adj q x
      new :
          (k : ℕ) (w : WireId)
          → Takes ops k w
          → (p : ℕ) × (Map.get table w ≡ some p) × HasEdge out.adj p (idx + k)
      from :
          (q x : ℕ)
          → HasEdge out.adj q x
          → HasEdge g.adj q x
            ⊎ ((k : ℕ) × (w : WireId) × (x ≡ idx + k) × Takes ops k w × (Map.get table w ≡ some q))

    Linked-cons :
        {idx : ℕ} {op : Operation} {ops : List Operation} {g mid out : Graph}
        → Connected table n bounded idx (inputs op) g mid
        → Linked (suc idx) ops mid out
        → Linked idx (op ∷ ops) g out
    Linked-cons {idx} {op} {ops} {out = out} c l = record {
      counted = l.counted;
      kept = λ q x e. l.kept q x (c.kept q x e);
      new = new_at;
      from = λ q x e. elim (l.from q x e) [
        | inr (k, w, xe, t, at) ↦
            inr (suc k, w, omega arith, record { op = t.op; at = t.at; takes = t.takes }, at)
        | inl mid_edge ↦ elim (c.from q x mid_edge) [
          | inl old ↦ inl old
          | inr (xe, (w, m, at)) ↦
              inr (zero, w, omega arith, record { op = op; at = refl; takes = m }, at)
        ]
      ];
    }
      where
        new_at :
            (k : ℕ) (w : WireId)
            → Takes (op ∷ ops) k w
            → (p : ℕ) × (Map.get table w ≡ some p) × HasEdge out.adj p (idx + k)
        new_at zero w t =
            let m : w ∈ inputs op =
              subst (λ o. w ∈ inputs o) (sym (some-injective op t.op t.at)) t.takes in
            let (p, at, e) = c.new w m in
            let i : idx ≡ idx + 0 = omega arith in
            (p, at, subst (λ x. HasEdge out.adj p x) i (l.kept p idx e))
        new_at (suc k) w t =
            let (p, at, e) = l.new k w (record { op = t.op; at = t.at; takes = t.takes }) in
            let i : suc idx + k ≡ idx + suc k = omega arith in
            (p, at, subst (λ x. HasEdge out.adj p x) i e)

    connect_consumers-cases :
        (idx : ℕ) (ops : List Operation) (g : Graph)
        → idx + length ops ≤ n
        → IsCounted n g
        → ((out : Graph) × (connect_consumers S table idx ops g ≡ ok out) × Linked idx ops g out)
          ⊎ ((w : WireId) × (connect_consumers S table idx ops g
                ≡ err (wire_consumed_but_not_produced w))
              × ((k : ℕ) × Takes ops k w)
              × (Map.get table w ≡ none))
    unfolding connect_consumers
    connect_consumers-cases idx [] g h v = inl (
      g,
      refl,
      record { counted = v; kept = λ q x e. e; new = λ k w t. cc t.at; from = λ q x e. inl e },
    )
    connect_consumers-cases idx (op ∷ ops) g h v =
        elim (connect_inputs-cases table n bounded idx (inputs op) g (omega arith) v) [
          | inr (w, fails, m, none_at) ↦
              inr (w, rw fails refl, (zero, record { op = op; at = refl; takes = m }), none_at)
          | inl (mid, connects, c) ↦
              elim (connect_consumers-cases (suc idx) ops mid (omega arith) c.counted) [
                | inr (w, fails, (k, t), none_at) ↦ inr (
                  w,
                  rw connects fails,
                  (suc k, record { op = t.op; at = t.at; takes = t.takes }),
                  none_at,
                )
                | inl (out, returns, l) ↦ inl (out, rw connects returns, Linked-cons c l)
              ]
        ]

  -- The graph of a list of operations.
  pub record Built (ops : List Operation) (g : Graph) : Type 0 where
    pub len_adj : length g.adj ≡ length ops
    pub len_deg : length g.in_degree ≡ length ops
    pub degree : (x : ℕ) → get_or g.in_degree x 0 ≡ edges_into g.adj x
    pub distinct : (w : WireId) → count w (all_outputs S ops) ≤ 1
    pub input_edge :
        (c : ℕ) (w : WireId) → Takes ops c w → (p : ℕ) × Makes S ops p w × HasEdge g.adj p c
    pub edge_input : (p c : ℕ) → HasEdge g.adj p c → (w : WireId) × Takes ops c w × Makes S ops p w

  -- The tables before any edge.
  no_edges : (n x : ℕ) → edges_into (replicate n []) x ≡ 0
  unfolding edges_into
  no_edges zero x = refl
  no_edges (suc n) x = omega (arith, no_edges n x)

  zeros : (n x : ℕ) → get_or {A = ℕ} (replicate n 0) x 0 ≡ 0
  zeros zero x = refl
  zeros (suc n) zero = refl
  zeros (suc n) (suc x) = zeros n x

  empty_at : (n p c : ℕ) {a : List ℕ} → get_elem? (replicate n []) p ≡ some a → ¬ (c ∈ a)
  empty_at zero p c h m = cc
  empty_at (suc n) zero c {a} h m = subst (λ l. c ∈ l) (sym (some-injective [] a h)) m
  empty_at (suc n) (suc p) c h m = empty_at n p c h m

  abbrev no_graph : List Operation → Graph
  no_graph ops = record { adj = replicate (length ops) []; in_degree = replicate (length ops) 0 }

  no_graph-IsCounted : (ops : List Operation) → IsCounted (length ops) (no_graph ops)
  no_graph-IsCounted ops = record {
    len_adj = length-replicate (length ops) [];
    len_deg = length-replicate (length ops) 0;
    degree = λ x. zeros (length ops) x ∙ sym (no_edges (length ops) x);
  }

  -- The table of producers after all operations, read both ways.
  table_from :
      (ops : List Operation) (table : HashMap ℕ)
      → Collected S 0 ops [] table
      → (w : WireId) (p : ℕ) → Map.get table w ≡ some p
      → Makes S ops p w
  unfolding Map.get
  table_from ops table c w p h = elim (c.from w p h) [
    | inl nowhere ↦ cc
    | inr (k, e, made) ↦ let same : k ≡ p = omega arith in subst (λ i. Makes S ops i w) same made
  ]

  known-le : (o : Option ℕ) → known' o ≤ 1
  known-le none = omega arith
  known-le (some p) = omega arith

  abbrev Consumes : List Operation → WireId → Type 0
  Consumes ops w = (k : ℕ) × Takes ops k w

  -- `build_graph` ends in one of three ways.
  pub build_graph-cases :
      (ops : List Operation)
      → ((g : Graph) × (build_graph S ops ≡ ok g) × Built ops g)
        ⊎ ((w : WireId) × (build_graph S ops ≡ err (wire_produced_many_times w))
            × (1 < count w (all_outputs S ops)))
        ⊎ ((w : WireId) × (build_graph S ops ≡ err (wire_consumed_but_not_produced w))
            × Consumes ops w
            × ((k : ℕ) → ¬ Makes S ops k w))
  unfolding build_graph Map.get
  build_graph-cases ops = elim (collect_producers-cases S 0 ops []) [
    | inr (w, fails, twice) ↦ inr (inl (w, rw fails refl, omega (arith, twice)))
    | inl (table, collects, c) ↦
        let made = table_from ops table c in
        elim (connect_consumers-cases table (length ops)
          (λ w p h. let m = made w p h in lt-get_elem? ops p m.at) 0 ops (no_graph ops)
          (omega arith) (no_graph-IsCounted ops)) [
            | inr (w, fails, consumed, none_at) ↦
                inr (inr (w, rw collects fails, consumed, λ k m. cc (c.holds w k m)))
            | inl (g, connects, l) ↦ inl (
              g,
              rw collects connects,
              record {
                len_adj = l.counted.len_adj;
                len_deg = l.counted.len_deg;
                degree = l.counted.degree;
                distinct = λ w. omega (arith, c.seen w, known-le (Map.get table w));
                input_edge = λ k w t.
                    let (p, at, e) = l.new k w t in
                    let is : 0 + k ≡ k = omega arith in
                    (p, made w p at, subst (λ x. HasEdge g.adj p x) is e);
                edge_input = λ p k e. elim (l.from p k e) [
                  | inl old ↦ absurd (empty_at (length ops) p k old.at old.target)
                  | inr (j, w, same, t, at) ↦
                      let is : j ≡ k = omega arith in
                      (w, subst (λ i. Takes ops i w) is t, made w p at)
                ];
              },
            )
          ]
  ]
