-- ===== src/Circuit/New/Start.antt =====
-- The state at the start of the sort meets the invariant, and both phases of the sort return.
use mpc_core.Prelude.{ℕ, zero, suc, ◌+◌, ◌<◌, ◌≡◌, refl, ◌∙◌, ap, true, false}
use mpc_core.Prelude.{Option, none, some, List, [], ◌∷◌, get_elem?, count, length, arith, ok}
use mpc_core.Prelude.{map, count_ne}
use mpc_core.Operation.{Gates}
use mpc_core.Circuit.{Round}
use mpc_core.Circuit.Graph.{Graph}
use mpc_core.Circuit.Graph.Edges.{edges_into}
use mpc_core.Circuit.Graph.Correct.{Built}
use mpc_core.Circuit.Sort.{State}
use mpc_core.Circuit.Sort.Pending.{need, blocked, waiting}
use mpc_core.Circuit.Sort.Invariant.{Inv}
use mpc_core.Circuit.Sort.Loops.{Rounds, process_wave-Processes}
use mpc_core.Circuit.New.{zero_degree, start, go_online, sort}

abbrev zero_at : Option ℕ → ℕ
zero_at (some zero) = 1
zero_at _ = 0

count-zero_degree_below : (idx x : ℕ) (ds : List ℕ) → x < idx → count x (zero_degree idx ds) ≡ 0
unfolding zero_degree
count-zero_degree_below idx x [] h = refl
count-zero_degree_below idx x (zero ∷ ds) h = ground (arith, count-zero_degree_below (suc idx) x ds)
count-zero_degree_below idx x (suc d ∷ ds) h = count-zero_degree_below (suc idx) x ds (omega arith)

count-zero_degree :
    (idx c : ℕ) (ds : List ℕ) → count (idx + c) (zero_degree idx ds) ≡ zero_at (get_elem? ds c)
unfolding zero_degree
count-zero_degree idx c [] = refl
count-zero_degree idx zero (zero ∷ ds) =
    ground (arith, count-zero_degree_below (suc idx) (idx + 0) ds)
count-zero_degree idx zero (suc d ∷ ds) =
    count-zero_degree_below (suc idx) (idx + 0) ds (omega arith)
count-zero_degree idx (suc c) (zero ∷ ds) =
    let e : idx + suc c ≡ suc idx + c = omega arith in
    count_ne (idx + suc c) idx (zero_degree (suc idx) ds) (omega arith)
    ∙ ap (λ (x : ℕ). count x (zero_degree (suc idx) ds)) e
    ∙ count-zero_degree (suc idx) c ds
count-zero_degree idx (suc c) (suc d ∷ ds) =
    let e : idx + suc c ≡ suc idx + c = omega arith in
    ap (λ (x : ℕ). count x (zero_degree (suc idx) ds)) e ∙ count-zero_degree (suc idx) c ds

module _ {Op : Type 0} where
  length-map-some : (ops : List Op) → length (map some ops) ≡ length ops
  length-map-some [] = refl
  length-map-some (op ∷ ops) = ap suc (length-map-some ops)

  need-map-some :
      (ops : List Op) (adj : List (List ℕ)) (c : ℕ)
      → length adj ≡ length ops
      → need (map some ops) adj c ≡ edges_into adj c
  unfolding need edges_into
  need-map-some [] [] c h = refl
  need-map-some [] (a ∷ adj) c h = absurd (omega arith)
  need-map-some (op ∷ ops) [] c h = absurd (omega arith)
  need-map-some (op ∷ ops) (a ∷ adj) c h = omega (arith, need-map-some ops adj c)

  waiting-map-some :
      (ops : List Op) (ds : List ℕ) (c : ℕ)
      → length ds ≡ length ops
      → waiting (map some ops) ds c ≡ zero_at (get_elem? ds c)
  waiting-map-some [] [] c h = refl
  waiting-map-some [] (d ∷ ds) c h = absurd (omega arith)
  waiting-map-some (op ∷ ops) [] c h = absurd (omega arith)
  waiting-map-some (op ∷ ops) (zero ∷ ds) zero h = refl
  waiting-map-some (op ∷ ops) (suc d ∷ ds) zero h = refl
  waiting-map-some (op ∷ ops) (d ∷ ds) (suc c) h = waiting-map-some ops ds c (omega arith)

  get_elem?-map-some : (ops : List Op) (c : ℕ) → ¬ (get_elem? (map some ops) c ≡ some none)
  get_elem?-map-some [] c h = cc
  get_elem?-map-some (op ∷ ops) zero h = cc
  get_elem?-map-some (op ∷ ops) (suc c) h = get_elem?-map-some ops c h

  length-zero_degree :
      (idx : ℕ) (ops : List Op) (ds : List ℕ)
      → length ds ≡ length ops
      → length (zero_degree idx ds) + blocked (map some ops) ds ≡ length ops
  unfolding zero_degree blocked
  length-zero_degree idx [] [] h = omega arith
  length-zero_degree idx [] (d ∷ ds) h = absurd (omega arith)
  length-zero_degree idx (op ∷ ops) [] h = absurd (omega arith)
  length-zero_degree idx (op ∷ ops) (zero ∷ ds) h =
      omega (arith, length-zero_degree (suc idx) ops ds)
  length-zero_degree idx (op ∷ ops) (suc d ∷ ds) h =
      omega (arith, length-zero_degree (suc idx) ops ds)

module _ (S : Gates) (ops : List S.Operation) (g : Graph) (b : Built S ops g) where
  open S use {Operation}

  start-Inv : Inv S g.adj (length ops) [] (start S ops g)
  unfolding start
  start-Inv = record {
    len_ops = length-map-some ops;
    len_deg = b.len_deg;
    degree = λ c. omega (arith, b.degree c, need-map-some ops g.adj c b.len_adj);
    queued = λ c. omega (
      arith,
      ap (λ (x : ℕ). count x (zero_degree 0 g.in_degree)) (zero_add c),
      count-zero_degree 0 c g.in_degree,
      waiting-map-some ops g.in_degree c b.len_deg,
    );
    closed = λ c h. absurd (get_elem?-map-some ops c h);
    fits = omega (arith, length-zero_degree 0 ops g.in_degree b.len_deg);
  }
    where
      zero_add : (x : ℕ) → 0 + x ≡ x
      zero_add x = omega arith

  go_online-Inv :
      {s : State Operation}
      → Inv S g.adj (length ops) [] s
      → s.wave ≡ []
      → s.next_wave ≡ []
      → Inv S g.adj (length ops) [] (go_online S s)
  unfolding go_online
  go_online-Inv v e k = record {
    len_ops = v.len_ops;
    len_deg = v.len_deg;
    degree = v.degree;
    queued = λ c. omega (arith, v.queued c, ap (count c) e, ap (count c) k);
    closed = v.closed;
    fits = omega (arith, v.fits, ap length e, ap length k);
  }

  -- The two phases of the sort, run to their ends.
  pub record Sorted : Type 0 where
    pub mid : State Operation × List (Round Operation)
    pub out : State Operation × List (Round Operation)
    pub returns :
        sort S ops g ≡ ok (out.0.ops, record { offline_rounds = mid.1; online_rounds = out.1 })
    pub inv : Inv S g.adj (length ops) [] out.0
    pub empty : out.0.wave ≡ []
    pub no_next : out.0.next_wave ≡ []
    pub offline : Rounds S g.adj (length ops) b.len_adj true (start S ops g, []) mid
    pub online : Rounds S g.adj (length ops) b.len_adj false (go_online S mid.0, []) out

  pub sort-Sorted : Sorted
  unfolding sort
  sort-Sorted =
      let n = length ops in
      let v = start-Inv in
      let p =
        process_wave-Processes S g.adj n b.len_adj true (suc n) (suc n) (start S ops g) [] v refl
          (omega (arith, v.fits)) (omega arith) in
      let w = go_online-Inv p.inv p.empty p.no_next in
      let q =
        process_wave-Processes S g.adj n b.len_adj false (suc n) (suc n) (go_online S p.out.0) [] w
          p.no_next (omega (arith, w.fits)) (omega arith) in
      record {
        mid = p.out;
        out = q.out;
        returns = rw (p.returns, q.returns) refl;
        inv = q.inv;
        empty = q.empty;
        no_next = q.no_next;
        offline = p.history;
        online = q.history;
      }
