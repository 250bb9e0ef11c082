-- ===== src/Circuit/Graph/Edges.antt =====
-- The adjacency lists and the in-degrees: they hold one edge for each input wire, from its producer,
-- or an input wire is named that has no producer.
use mpc_core.Prelude.{ℕ, zero, suc, ◌+◌, ◌<◌, ◌≡◌, refl, ◌∙◌, sym}
use mpc_core.Prelude.{
  none, some, List, [], ◌∷◌, ◌++◌, get_elem?, get_or, set, count, length, arith, ok, err,
}
use mpc_core.Prelude.{◌==◌, ◌⊎◌, inl, inr, Bool-cases, Option-cases, ==→≡, ==→≢, count-append, ◌∈◌}
use mpc_core.Prelude.{
  get_elem?-lt, lt-get_elem?, get_elem?-set_self, get_elem?-set_ne, get_or-set_self, get_or-set_ne,
}
use mpc_core.Prelude.{
  get_or-eq_of_get_elem?, length-set, mem-append, mem-append_left, mem-snoc, subst,
}
use mathlib.Core.Option.{some-injective}
use mpc_core.Prelude.Map
use mpc_core.Prelude.Map.{HashMap}
use mpc_core.Operation.{WireId}
use mpc_core.Circuit.{wire_consumed_but_not_produced}
use mpc_core.Circuit.Graph.{Graph, add_edge, connect_inputs}

-- The number of edges into `c`.
unfoldable pub edges_into : List (List ℕ) → ℕ → ℕ
edges_into [] c = 0
edges_into (a ∷ adj) c = count c a + edges_into adj c

edges_into-set :
    (adj : List (List ℕ)) (p x : ℕ) (b : List ℕ) {a : List ℕ}
    → get_elem? adj p ≡ some a
    → edges_into (set adj p b) x + count x a ≡ edges_into adj x + count x b
unfolding edges_into
edges_into-set [] p x b h = cc
edges_into-set (a ∷ adj) zero x b h = ground arith
edges_into-set (a ∷ adj) (suc p) x b h = omega (arith, edges_into-set adj p x b h)

-- There is an edge from operation `p` to operation `c`.
pub record HasEdge (adj : List (List ℕ)) (p c : ℕ) : Type 0 where
  pub targets : List ℕ
  pub at : get_elem? adj p ≡ some targets
  pub target : c ∈ targets

-- The degrees count the edges, and the tables have one entry for each of `n` operations.
pub record IsCounted (n : ℕ) (g : Graph) : Type 0 where
  pub len_adj : length g.adj ≡ n
  pub len_deg : length g.in_degree ≡ n
  pub degree : (x : ℕ) → get_or g.in_degree x 0 ≡ edges_into g.adj x

-- One more target for `p`.
module _ (adj : List (List ℕ)) (p c : ℕ) {a : List ℕ} (at : get_elem? adj p ≡ some a) where
  abbrev pushed : List (List ℕ)
  pushed = set adj p (a ++ c ∷ [])

  pushed_at : get_elem? pushed p ≡ some (a ++ c ∷ [])
  pushed_at = get_elem?-set_self adj p (a ++ c ∷ []) (lt-get_elem? adj p at)

  -- The targets of a list that stands at `p`.
  targets_of :
      (l : List (List ℕ)) (q x : ℕ) {b : List ℕ}
      → p ≡ q
      → get_elem? l p ≡ some b
      → HasEdge l q x
      → x ∈ b
  targets_of l q x {b} e k h =
      subst (λ ts. x ∈ ts)
        (some-injective h.targets b (sym h.at ∙ subst (λ r. get_elem? l r ≡ some b) e k)) h.target

  HasEdge-pushed_kept : (q x : ℕ) → HasEdge adj q x → HasEdge pushed q x
  HasEdge-pushed_kept q x h = elim (Bool-cases (p == q)) [
    | inl same ↦ record {
      targets = a ++ c ∷ [];
      at = subst (λ r. get_elem? pushed r ≡ some (a ++ c ∷ [])) (==→≡ p q same) pushed_at;
      target = mem-append_left x a (c ∷ []) (targets_of adj q x (==→≡ p q same) at h);
    }
    | inr other ↦ record {
      targets = h.targets;
      at = get_elem?-set_ne adj p q (a ++ c ∷ []) (==→≢ p q other) ∙ h.at;
      target = h.target;
    }
  ]

  HasEdge-pushed_from : (q x : ℕ) → HasEdge pushed q x → HasEdge adj q x ⊎ (q ≡ p) × (x ≡ c)
  HasEdge-pushed_from q x h = elim (Bool-cases (p == q)) [
    | inl same ↦
        let e = ==→≡ p q same in
        elim (mem-append x a (c ∷ []) (targets_of pushed q x e pushed_at h)) [
          | inl old ↦ inl (record {
            targets = a;
            at = subst (λ r. get_elem? adj r ≡ some a) e at;
            target = old;
          })
          | inr (inl is) ↦ inr (sym e, is)
          | inr (inr nowhere) ↦ absurd nowhere
        ]
    | inr other ↦ inl (record {
      targets = h.targets;
      at = sym (get_elem?-set_ne adj p q (a ++ c ∷ []) (==→≢ p q other)) ∙ h.at;
      target = h.target;
    })
  ]

-- `add_edge` within the tables.
record Added (p c : ℕ) (g out : Graph) : Type 0 where
  kept : (q x : ℕ) → HasEdge g.adj q x → HasEdge out.adj q x
  new : HasEdge out.adj p c
  from : (q x : ℕ) → HasEdge out.adj q x → HasEdge g.adj q x ⊎ (q ≡ p) × (x ≡ c)

add_edge-Added :
    (n p c : ℕ) (g : Graph)
    → IsCounted n g
    → p < n
    → c < n
    → (out : Graph) × (add_edge p c g ≡ ok out) × IsCounted n out × Added p c g out
unfolding add_edge
add_edge-Added n p c g v hp hc =
    let (a, at) = get_elem?-lt g.adj p (omega (arith, v.len_adj)) in
    let (d, dat) = get_elem?-lt g.in_degree c (omega (arith, v.len_deg)) in
    (
      record { adj = pushed g.adj p c at; in_degree = set g.in_degree c (d + 1) },
      rw (at, dat) refl,
      record {
        len_adj = length-set g.adj p (a ++ c ∷ []) ∙ v.len_adj;
        len_deg = length-set g.in_degree c (d + 1) ∙ v.len_deg;
        degree = λ x. elim (Bool-cases (c == x)) [
          | inl same ↦ ground (
            arith,
            ==→≡ c x same,
            v.degree x,
            get_or-eq_of_get_elem? g.in_degree c 0 dat,
            get_or-set_self g.in_degree c (d + 1) 0 (lt-get_elem? g.in_degree c dat),
            edges_into-set g.adj p x (a ++ c ∷ []) at,
            count-append x a (c ∷ []),
          )
          | inr other ↦ ground (
            arith,
            v.degree x,
            get_or-set_ne g.in_degree c x (d + 1) 0 (==→≢ c x other),
            edges_into-set g.adj p x (a ++ c ∷ []) at,
            count-append x a (c ∷ []),
          )
        ];
      },
      record {
        kept = HasEdge-pushed_kept g.adj p c at;
        new = record { targets = a ++ c ∷ []; at = pushed_at g.adj p c at; target = mem-snoc c a };
        from = HasEdge-pushed_from g.adj p c at;
      },
    )

module _ (table : HashMap ℕ) (n : ℕ)
    (bounded : (w : WireId) (p : ℕ) → Map.get table w ≡ some p → p < n) where
  -- The graph after the input wires `ws` of operation `c`.
  pub record Connected (c : ℕ) (ws : List WireId) (g out : Graph) : Type 0 where
    pub counted : IsCounted n out
    pub kept : (q x : ℕ) → HasEdge g.adj q x → HasEdge out.adj q x
    pub new : (w : WireId) → w ∈ ws → (p : ℕ) × (Map.get table w ≡ some p) × HasEdge out.adj p c
    pub from :
        (q x : ℕ)
        → HasEdge out.adj q x
        → HasEdge g.adj q x ⊎ (x ≡ c) × ((w : WireId) × w ∈ ws × (Map.get table w ≡ some q))

  pub connect_inputs-cases :
      (c : ℕ) (ws : List WireId) (g : Graph)
      → c < n
      → IsCounted n g
      → ((out : Graph) × (connect_inputs table c ws g ≡ ok out) × Connected c ws g out)
        ⊎ ((w : WireId) × (connect_inputs table c ws g ≡ err (wire_consumed_but_not_produced w))
            × w ∈ ws
            × (Map.get table w ≡ none))
  unfolding connect_inputs
  connect_inputs-cases c [] g h v = inl (
    g,
    refl,
    record { counted = v; kept = λ q x e. e; new = λ w m. absurd m; from = λ q x e. inl e },
  )
  connect_inputs-cases c (w ∷ ws) g h v = elim (Option-cases (Map.get table w)) [
    | inl e ↦ inr (w, rw (e, connect_inputs) refl, inl refl, e)
    | inr (p, e) ↦
        let (mid, adds, u, a) = add_edge-Added n p c g v (bounded w p e) h in
        elim (connect_inputs-cases c ws mid h u) [
          | inr (x, fails, m, none_at) ↦ inr (x, rw (e, connect_inputs, adds) fails, inr m, none_at)
          | inl (out, returns, k) ↦ inl (
            out,
            rw (e, connect_inputs, adds) returns,
            record {
              counted = k.counted;
              kept = λ q x old. k.kept q x (a.kept q x old);
              new = λ x. elim [ inl is ↦ (p, rw is e, k.kept p c a.new) | inr m ↦ k.new x m ];
              from = λ q x edge. elim (k.from q x edge) [
                | inl mid_edge ↦ elim (a.from q x mid_edge) [
                  | inl old ↦ inl old
                  | inr (qe, xe) ↦ inr (xe, (w, inl refl, rw qe e))
                ]
                | inr (xe, (y, m, at)) ↦ inr (xe, (y, inr m, at))
              ];
            },
          )
        ]
  ]
