-- ===== src/Circuit/New/Order.antt =====
-- The operations are taken in an order in which each stands behind the producers of its inputs, each
-- as often as it is given.
use mpc_core.Prelude.{ℕ, zero, suc, ◌≡◌, refl, ◌∙◌, sym, ap, subst, Bool}
use mpc_core.Prelude.{
  Option, none, some, List, [], ◌∷◌, ◌++◌, get_elem?, set, length, arith, append_assoc, append-nil,
}
use mpc_core.Prelude.{
  ◌∈◌, concat, inl, inr, Bool-cases, ==→≡, ==→≢, ◌==◌, mem-append, mem-append_left,
  mem-append_right,
}
use mpc_core.Prelude.{
  mem-of_get_elem?, mem-snoc, count-pos_of_mem, lt-get_elem?, get_elem?-set_self, get_elem?-set_ne,
  get_elem?-lt,
}
use mathlib.Core.Option.{some-injective}
use mathlib.Core.List.{Perm}
use mathlib.Core.List.Perm
use mpc_core.Operation.{WireId, Gates}
use mpc_core.Circuit.{Round}
use mpc_core.Circuit.Graph.{Graph}
use mpc_core.Circuit.Graph.Producers.{Makes, all_outputs}
use mpc_core.Circuit.Graph.Edges.{HasEdge}
use mpc_core.Circuit.Graph.Correct.{Built}
use mpc_core.Circuit.Sort.{State, schedule, begin_round, end_round}
use mpc_core.Circuit.Sort.Pending.{need, present, need-pos}
use mpc_core.Circuit.Sort.Steps.{deferred, taken, Head}
use mpc_core.Circuit.Sort.Loops.{Steps, Rounds}
use mpc_core.Circuit.Sort.Trace.{taken_ops, waves}

present-set :
    {Op : Type 0} (ops : List (Option Op)) (i : ℕ) {op : Op}
    → get_elem? ops i ≡ some (some op)
    → Perm (op ∷ present (set ops i none)) (present ops)
unfolding present
present-set [] i h = cc
present-set (none ∷ ops) zero h = cc
present-set (some x ∷ ops) zero {op} h = let e : op ≡ x = cc in rw e (Perm.refl (x ∷ present ops))
present-set (none ∷ ops) (suc i) h = present-set ops i h
present-set (some x ∷ ops) (suc i) {op} h =
    Perm.trans (Perm.swap x op (present (set ops i none))) (Perm.cons x (present-set ops i h))

module _ (S : Gates) where
  open S use {Operation, inputs, outputs}

  pub mem-all_outputs :
      (w : WireId) (op : Operation) (ops : List Operation)
      → op ∈ ops
      → w ∈ outputs op
      → w ∈ all_outputs S ops
  mem-all_outputs w op [] h m = absurd h
  mem-all_outputs w op (x ∷ ops) (inl e) m =
      mem-append_left w (outputs x) (all_outputs S ops) (subst (λ o. w ∈ outputs o) e m)
  mem-all_outputs w op (x ∷ ops) (inr h) m =
      mem-append_right w (outputs x) (all_outputs S ops) (mem-all_outputs w op ops h m)

  pub Makes-of_mem :
      (w : WireId) (ops : List Operation) → w ∈ all_outputs S ops → (k : ℕ) × Makes S ops k w
  Makes-of_mem w [] h = absurd h
  Makes-of_mem w (x ∷ ops) h = elim (mem-append w (outputs x) (all_outputs S ops) h) [
    | inl m ↦ (zero, record { op = x; at = refl; out = m })
    | inr m ↦
        let (k, made) = Makes-of_mem w ops m in
        (suc k, record { op = made.op; at = made.at; out = made.out })
  ]

  -- Each operation's inputs are outputs of `before` or of an operation that stands before it.
  abbrev pub IsOrdered : List Operation → List Operation → Type 0
  IsOrdered before [] = Unit
  IsOrdered before (op ∷ ops) =
      ((w : WireId) → w ∈ inputs op → w ∈ all_outputs S before) × IsOrdered (before ++ op ∷ []) ops

  pub IsOrdered-append :
      (before xs ys : List Operation)
      → IsOrdered before xs
      → IsOrdered (before ++ xs) ys
      → IsOrdered before (xs ++ ys)
  IsOrdered-append before [] ys h k = subst (λ l. IsOrdered l ys) (append-nil before) k
  IsOrdered-append before (x ∷ xs) ys h k = (
    h.0,
    IsOrdered-append (before ++ x ∷ []) xs ys h.1
        (subst (λ l. IsOrdered l ys) (sym (append_assoc before (x ∷ []) xs)) k),
  )

module _ (S : Gates) (raw : List S.Operation) (g : Graph) (b : Built S raw g) where
  open S use {Operation, inputs, outputs}

  -- `before` holds the operations that are taken.
  pub record Knows (before : List Operation) (s : State Operation) : Type 0 where
    pub seen :
        (p : ℕ) (op : Operation)
        → get_elem? raw p ≡ some op
        → get_elem? s.ops p ≡ some none
        → op ∈ before
    pub here :
        (p : ℕ) (op : Operation) → get_elem? s.ops p ≡ some (some op) → get_elem? raw p ≡ some op
    pub given : (op : Operation) → op ∈ before → op ∈ raw
    pub same : Perm (before ++ present s.ops) raw

  abbrev pub Heads : ℕ → State Operation → Type 0
  Heads = Head S g.adj (length raw) b.len_adj

  -- The producers of an operation that needs nothing are taken.
  pub producer_taken :
      {before : List Operation} {s : State Operation} {i : ℕ} (p : ℕ) {op : Operation}
      → need s.ops g.adj i ≡ 0
      → length s.ops ≡ length raw
      → Knows before s
      → HasEdge g.adj p i
      → get_elem? raw p ≡ some op
      → op ∈ before
  producer_taken {before} {s} {i} p {op} free len k e at =
      let (o, f) = get_elem?-lt s.ops p (omega (arith, len, lt-get_elem? raw p at)) in
      decide_taken o f
    where
      decide_taken : (o : Option Operation) → get_elem? s.ops p ≡ some o → op ∈ before
      decide_taken none f = k.seen p op at f
      decide_taken (some x) f = absurd (
          omega
            (arith, free, need-pos s.ops g.adj p i f e.at (count-pos_of_mem i e.targets e.target)))

  -- So its inputs are outputs of what is taken.
  pub head_inputs :
      {before : List Operation} {s : State Operation} {i : ℕ} (h : Heads i s)
      → length s.ops ≡ length raw
      → Knows before s
      → (w : WireId) → w ∈ inputs h.op
      → w ∈ all_outputs S before
  head_inputs {before} {s} {i} h len k w m =
      let (p, made, e) =
        b.input_edge i w (record { op = h.op; at = k.here i h.op h.at; takes = m }) in
      mem-all_outputs S w made.op before (producer_taken p h.free len k e made.at) made.out

  pub Knows-take :
      {before : List Operation} {s t : State Operation} {i : ℕ} (h : Heads i s)
      → t.ops ≡ set s.ops i none
      → Knows before s
      → Knows (before ++ h.op ∷ []) t
  Knows-take {before} {s} {t} {i} h e k = record {
    seen = λ p op at f. elim (Bool-cases (i == p)) [
      | inl same ↦
          let q = ==→≡ i p same in
          let x : op ≡ h.op =
            some-injective op h.op
              (sym at ∙ subst (λ j. get_elem? raw j ≡ some h.op) q (k.here i h.op h.at)) in
          subst (λ o. o ∈ before ++ h.op ∷ []) (sym x) (mem-snoc h.op before)
      | inr other ↦ mem-append_left op before (h.op ∷ []) (
          k.seen p op at (
            sym (get_elem?-set_ne s.ops i p none (==→≢ i p other))
            ∙ sym (ap (λ l. get_elem? l p) e)
            ∙ f))
    ];
    here = λ p op f. elim (Bool-cases (i == p)) [
      | inl same ↦
          let q = ==→≡ i p same in
          absurd (clash p op q (subst (λ l. get_elem? l p ≡ some (some op)) e f))
      | inr other ↦ k.here p op (
          sym (get_elem?-set_ne s.ops i p none (==→≢ i p other))
          ∙ sym (ap (λ l. get_elem? l p) e)
          ∙ f)
    ];
    given = λ op m. elim (mem-append op before (h.op ∷ []) m) [
      | inl old ↦ k.given op old
      | inr (inl e) ↦ rw e (mem-of_get_elem? raw i h.op (k.here i h.op h.at))
      | inr (inr nowhere) ↦ absurd nowhere
    ];
    same =
        subst (λ l. Perm ((before ++ h.op ∷ []) ++ present l) raw) (sym e)
          (subst (λ l. Perm l raw)
            (sym (append_assoc before (h.op ∷ []) (present (set s.ops i none))))
            (Perm.trans (Perm.append_left before (present-set s.ops i h.at)) k.same));
  }
    where
      clash : (p : ℕ) (op : Operation) → i ≡ p → ¬ (get_elem? (set s.ops i none) p ≡ some (some op))
      clash p op q f =
          let z = get_elem?-set_self s.ops i none (lt-get_elem? s.ops i h.at) in
          cc (subst (λ j. get_elem? (set s.ops i none) j ≡ some none) q z)

  pub Knows-same_ops :
      {before : List Operation} {s t : State Operation}
      → t.ops ≡ s.ops
      → Knows before s
      → Knows before t
  Knows-same_ops {before} e k = record {
    seen = λ p op at f. k.seen p op at (sym (ap (λ l. get_elem? l p) e) ∙ f);
    here = λ p op f. k.here p op (sym (ap (λ l. get_elem? l p) e) ∙ f);
    given = k.given;
    same = subst (λ l. Perm (before ++ present l) raw) (sym e) k.same;
  }

  pub Knows-subst :
      {xs ys : List Operation} {s : State Operation} → xs ≡ ys → Knows xs s → Knows ys s
  Knows-subst {s = s} e k = subst (λ l. Knows l s) e k

  pub ops_schedule :
      (i : ℕ) (op : Operation) (s : State Operation) → (schedule S i op s).ops ≡ set s.ops i none
  unfolding schedule
  ops_schedule i op s = ground arith

  abbrev pub Run : Bool → State Operation → State Operation → Type 0
  Run = Steps S g.adj (length raw) b.len_adj

  abbrev pub RoundsRun :
      Bool
      → State Operation × List (Round Operation)
      → State Operation × List (Round Operation)
      → Type 0
  RoundsRun = Rounds S g.adj (length raw) b.len_adj

  module _ {defer : Bool} where
    pub steps_order :
        {s t : State Operation} (st : Run defer s t) (before : List Operation)
        → Knows before s
        → Knows (before ++ taken_ops S st) t × IsOrdered S before (taken_ops S st)
    unfolding taken_ops
    steps_order (Steps.last e same) before k =
        (Knows-subst (sym (append-nil before)) (Knows-same_ops (ap (λ r. r.ops) same) k), tt)
    steps_order (Steps.more e v (deferred h later same) st) before k =
        steps_order st before (Knows-same_ops (ap (λ r. r.ops) same) k)
    steps_order (Steps.more {i = i} {wave = l} {s = s} {t = u} e v (taken h now r) st) before k =
        let (known, ordered) = steps_order st (before ++ h.op ∷ []) (
          Knows-take h (r.ops ∙ ops_schedule i h.op (record s { wave = l }))
            (Knows-same_ops refl k)) in
        (
          Knows-subst (append_assoc before (h.op ∷ []) (taken_ops S st)) known,
          (head_inputs h v.len_ops (Knows-same_ops refl k), ordered),
        )

    pub rounds_order :
        {p q : State Operation × List (Round Operation)} (r : RoundsRun defer p q)
        (before : List Operation)
        → Knows before p.0
        → Knows (before ++ concat (waves S r)) q.0 × IsOrdered S before (concat (waves S r))
    unfolding waves begin_round end_round
    rounds_order (Rounds.last e same) before k =
        (Knows-subst (sym (append-nil before)) (Knows-same_ops (ap (λ r. r.0.ops) same) k), tt)
    rounds_order (Rounds.more v empty steps e rest) before k =
        let (mid, ordered) = steps_order steps before (Knows-same_ops refl k) in
        let (known, later) =
          rounds_order rest (before ++ taken_ops S steps) (Knows-same_ops refl mid) in
        (
          Knows-subst (append_assoc before (taken_ops S steps) (concat (waves S rest))) known,
          IsOrdered-append S before (taken_ops S steps) (concat (waves S rest)) ordered later,
        )
