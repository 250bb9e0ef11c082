-- ===== src/Circuit/New/Cycles.antt =====
-- `CircuitCyclic` is reported only where the operations have a cycle.
use mpc_core.Prelude.{ℕ, zero, suc, ◌+◌, ◌<◌, ◌≡◌, refl, ◌∙◌, sym, ap}
use mpc_core.Prelude.{some, List, [], get_elem?, get_or, count, length, arith}
use mpc_core.Prelude.{
  get_elem?-lt, lt-get_elem?, get_or-eq_of_get_elem?, mem-of_get_elem?, mem-of_count,
}
use mathlib.Core.Option.{some-injective}
use mpc_core.Operation.{Gates}
use mpc_core.Circuit.Graph.{Graph}
use mpc_core.Circuit.Graph.Correct.{Built}
use mpc_core.Circuit.Sort.{State}
use mpc_core.Circuit.Sort.Pending.{need-witness, is_ready}
use mpc_core.Circuit.Sort.Invariant.{Inv}
use mpc_core.Circuit.New.Order.{Knows}
use mpc_core.Circuit.New.Outcomes.{IsRanked}

module _ (S : Gates) (raw : List S.Operation) (g : Graph) (b : Built S raw g) where
  open S use {Operation, inputs, outputs}

  module _ (rank : Operation → ℕ) (ranked : IsRanked S rank raw) {before : List Operation}
      {s : State Operation} (v : Inv S g.adj (length raw) [] s) (k : Knows S raw g b before s)
      (idle : (c : ℕ) → count c s.wave + count c s.next_wave + count c s.online_wave ≡ 0) where
    degree_pos :
        (c : ℕ) {op : Operation} → get_elem? s.ops c ≡ some (some op) → 0 < get_or s.in_degree c 0
    degree_pos c e =
        let (d, f) =
          get_elem?-lt s.in_degree c
            (omega (arith, v.len_ops, v.len_deg, lt-get_elem? s.ops c e)) in
        split_degree d e f
      where
        split_degree :
            (d : ℕ) {op : Operation}
            → get_elem? s.ops c ≡ some (some op)
            → get_elem? s.in_degree c ≡ some d
            → 0 < get_or s.in_degree c 0
        split_degree (suc d) e f = omega (arith, get_or-eq_of_get_elem? s.in_degree c 0 f)
        split_degree zero e f =
            let q : is_ready (get_elem? s.ops c) (get_elem? s.in_degree c) ≡ 1 = rw (e, f) refl in
            absurd (omega (arith, v.queued c, idle c))

    -- An operation that is left needs another of lower rank.
    pub nothing_left :
        (n c : ℕ) {op : Operation} → get_elem? s.ops c ≡ some (some op) → ¬ (rank op < n)
    nothing_left zero c e h = omega arith
    nothing_left (suc n) c {op} e h =
        let (p, o, a, at, edges, pos) =
          need-witness s.ops g.adj c (omega (arith, v.degree c, degree_pos c e)) in
        let (w, t, m) =
          b.edge_input p c (record { targets = a; at = edges; target = mem-of_count c a pos }) in
        let producer : m.op ≡ o = some-injective m.op o (sym m.at ∙ k.here p o at) in
        let consumer : t.op ≡ op = some-injective t.op op (sym t.at ∙ k.here c op e) in
        let lower =
          ranked m.op t.op w (mem-of_get_elem? raw p m.op m.at) (mem-of_get_elem? raw c t.op t.at)
            m.out t.takes in
        nothing_left n p at (omega (arith, h, lower, ap rank producer, ap rank consumer))
