-- ===== src/Circuit/Sort/Invariant.antt =====
-- The invariant of the sort, and `release`: degrees count the edges out of operations not yet taken,
-- and the queues hold, once each, the operations that are free to run.
use mpc_core.Prelude.{
  ℕ, zero, suc, ◌+◌, ◌≤◌, ◌<◌, ◌≡◌, refl, ◌∙◌, ap, Bool, true, false, Option, none, some,
}
use mpc_core.Prelude.{
  List, [], ◌∷◌, get_elem?, get_or, set, count, length, arith, ok, ◌==◌, ◌⊎◌, inl, inr,
}
use mpc_core.Prelude.{Bool-cases, Option-cases, ==→≡, ==→≢, get_elem?-lt, lt-get_elem?}
use mpc_core.Prelude.{
  get_or-eq_of_get_elem?, get_or-eq-default, get_elem?-set_self, get_elem?-set_ne, get_or-set_self,
}
use mpc_core.Prelude.{
  get_or-set_ne, length-set, length-append, count-append, count_self, ◌∈◌, mem-append,
}
use mpc_core.Operation.{Gates}
use mpc_core.Circuit.Sort.{State, enqueue, release}
use mpc_core.Circuit.Sort.Pending.{need, blocked, waiting, blocked-set_degree}

module _ (S : Gates) (adj : List (List ℕ)) (n : ℕ) where
  open S use {Operation}

  -- `rest` holds the edges of the operation taken last that are not yet followed.
  pub record Inv (rest : List ℕ) (s : State Operation) : Type 0 where
    pub len_ops : length s.ops ≡ n
    pub len_deg : length s.in_degree ≡ n
    pub degree : (c : ℕ) → get_or s.in_degree c 0 ≡ need s.ops adj c + count c rest
    pub queued :
        (c : ℕ)
        → count c s.wave + count c s.next_wave + count c s.online_wave ≡ waiting s.ops s.in_degree c
    pub closed : (c : ℕ) → get_elem? s.ops c ≡ some none → get_or s.in_degree c 0 ≡ 0
    pub fits :
        length s.wave + length s.next_wave + length s.online_wave + blocked s.ops s.in_degree ≤ n

  -- A consumer that is still to be told has an operation and a positive degree.
  target_lem :
      {rest : List ℕ} {s : State Operation} (c : ℕ)
      → Inv (c ∷ rest) s
      → (d : ℕ) × (op : Operation) × (get_elem? s.in_degree c ≡ some (suc d))
        × (get_elem? s.ops c ≡ some (some op))
  target_lem {rest} {s} c i = elim (Option-cases (get_elem? s.in_degree c)) [
    | inl e ↦
        absurd (omega (arith, get_or-eq-default s.in_degree c 0 e, i.degree c, count_self c rest))
    | inr (k, e) ↦
        let (o, f) =
          get_elem?-lt s.ops c
            (omega (arith, i.len_ops, i.len_deg, lt-get_elem? s.in_degree c e)) in
        pick k o e f
          (omega (arith, get_or-eq_of_get_elem? s.in_degree c 0 e, i.degree c, count_self c rest))
  ]
    where
      pick :
          (k : ℕ) (o : Option Operation)
          → get_elem? s.in_degree c ≡ some k
          → get_elem? s.ops c ≡ some o
          → 0 < k
          → (d : ℕ) × (op : Operation) × (get_elem? s.in_degree c ≡ some (suc d))
            × (get_elem? s.ops c ≡ some (some op))
      pick zero o e f pos = absurd (omega arith)
      pick (suc d) (some op) e f pos = (d, op, e, f)
      pick (suc d) none e f pos =
          absurd (omega (arith, i.closed c f, get_or-eq_of_get_elem? s.in_degree c 0 e))

  -- What `release` does to a state: the lists that it leaves alone, where new members of the queues
  -- come from, and the measures of the two loops, which do not grow.
  pub record Released (op_local : Bool) (cs : List ℕ) (s t : State Operation) : Type 0 where
    pub ops : t.ops ≡ s.ops
    pub online_wave : t.online_wave ≡ s.online_wave
    pub local_operations : t.local_operations ≡ s.local_operations
    pub network_operations : t.network_operations ≡ s.network_operations
    pub wave_from : (c : ℕ) → c ∈ t.wave → (c ∈ s.wave) ⊎ ((op_local ≡ true) × c ∈ cs)
    pub next_from : (c : ℕ) → c ∈ t.next_wave → (c ∈ s.next_wave) ⊎ ((op_local ≡ false) × c ∈ cs)
    pub inner :
        length t.wave + blocked t.ops t.in_degree ≤ length s.wave + blocked s.ops s.in_degree
    pub outer :
        length t.wave + length t.next_wave + blocked t.ops t.in_degree
        ≤ length s.wave + length s.next_wave + blocked s.ops s.in_degree

  -- One consumer is told.
  tell : Bool → ℕ → ℕ → State Operation → State Operation
  unfolding enqueue
  tell op_local c d s = enqueue S op_local d c (record s { in_degree = set s.in_degree c d })

  module _ (op_local : Bool) {rest : List ℕ} {s : State Operation} (c d : ℕ) {op : Operation}
      (i : Inv (c ∷ rest) s) (e : get_elem? s.in_degree c ≡ some (suc d))
      (f : get_elem? s.ops c ≡ some (some op)) where
    c_bound : c < length s.in_degree
    c_bound = lt-get_elem? s.in_degree c e

    tell-degree :
        (x : ℕ)
        → get_or (tell op_local c d s).in_degree x 0
          ≡ need (tell op_local c d s).ops adj x + count x rest
    unfolding tell
    tell-degree x = elim (Bool-cases (c == x)) [
      | inl same ↦ ground (
        arith,
        ==→≡ c x same,
        i.degree x,
        get_or-eq_of_get_elem? s.in_degree c 0 e,
        get_or-set_self s.in_degree c d 0 c_bound,
      )
      | inr other ↦ ground (arith, i.degree x, get_or-set_ne s.in_degree c x d 0 (==→≢ c x other))
    ]

    tell-queued :
        (x : ℕ)
        → count x (tell op_local c d s).wave
            + count x (tell op_local c d s).next_wave
            + count x (tell op_local c d s).online_wave
          ≡ waiting (tell op_local c d s).ops (tell op_local c d s).in_degree x
    unfolding tell
    tell-queued x = elim (Bool-cases (c == x)) [
      | inl same ↦ ground (
        arith,
        ==→≡ c x same,
        i.queued x,
        get_elem?-set_self s.in_degree c d c_bound,
        count-append x s.wave (c ∷ []),
        count-append x s.next_wave (c ∷ []),
      )
      | inr other ↦ ground (
        arith,
        i.queued x,
        get_elem?-set_ne s.in_degree c x d (==→≢ c x other),
        count-append x s.wave (c ∷ []),
        count-append x s.next_wave (c ∷ []),
      )
    ]

    tell-closed :
        (x : ℕ)
        → get_elem? (tell op_local c d s).ops x ≡ some none
        → get_or (tell op_local c d s).in_degree x 0 ≡ 0
    unfolding tell
    tell-closed x h = elim (Bool-cases (c == x)) [
      | inl same ↦ ground (arith, ==→≡ c x same)
      | inr other ↦ ground (arith, i.closed x, get_or-set_ne s.in_degree c x d 0 (==→≢ c x other))
    ]

    tell-Released : Released op_local (c ∷ rest) s (tell op_local c d s)
    unfolding tell
    tell-Released = record {
      ops = ground arith;
      online_wave = ground arith;
      local_operations = ground arith;
      network_operations = ground arith;
      wave_from = λ x m. ground (arith, mem-append x s.wave (c ∷ []));
      next_from = λ x m. ground (arith, mem-append x s.next_wave (c ∷ []));
      inner = ground (
        arith,
        blocked-set_degree s.ops s.in_degree c d f e,
        length-append s.wave (c ∷ []),
        length-append s.next_wave (c ∷ []),
      );
      outer = ground (
        arith,
        blocked-set_degree s.ops s.in_degree c d f e,
        length-append s.wave (c ∷ []),
        length-append s.next_wave (c ∷ []),
      );
    }

    tell-Inv : Inv rest (tell op_local c d s)
    unfolding tell
    tell-Inv = record {
      len_ops = ground (arith, i.len_ops);
      len_deg = ground (arith, i.len_deg, length-set s.in_degree c d);
      degree = tell-degree;
      queued = tell-queued;
      closed = tell-closed;
      fits = let r = tell-Released in omega (arith, i.fits, r.outer, ap length r.online_wave);
    }

  Released-trans :
      {op_local : Bool} {cs ds : List ℕ} {s t u : State Operation}
      → ((x : ℕ) → x ∈ ds → x ∈ cs)
      → Released op_local cs s t
      → Released op_local ds t u
      → Released op_local cs s u
  Released-trans sub p q = record {
    ops = q.ops ∙ p.ops;
    online_wave = q.online_wave ∙ p.online_wave;
    local_operations = q.local_operations ∙ p.local_operations;
    network_operations = q.network_operations ∙ p.network_operations;
    wave_from = λ x m. ground (arith, q.wave_from x m, p.wave_from x, sub x);
    next_from = λ x m. ground (arith, q.next_from x m, p.next_from x, sub x);
    inner = omega (arith, p.inner, q.inner);
    outer = omega (arith, p.outer, q.outer);
  }

  -- `release` returns, with the invariant for no edge left to follow.
  pub release-Inv :
      (op_local : Bool) (cs : List ℕ) (s : State Operation)
      → Inv cs s
      → (t : State Operation) × (release S op_local cs s ≡ ok t)
        × Inv [] t
        × Released op_local cs s t
  unfolding release tell
  release-Inv op_local [] s i = (
    s,
    refl,
    i,
    record {
      ops = refl;
      online_wave = refl;
      local_operations = refl;
      network_operations = refl;
      wave_from = λ x m. inl m;
      next_from = λ x m. inl m;
      inner = omega arith;
      outer = omega arith;
    },
  )
  release-Inv op_local (c ∷ cs) s i =
      let (d, op, e, f) = target_lem c i in
      let (t, returns, j, r) =
        release-Inv op_local cs (tell op_local c d s) (tell-Inv op_local c d i e f) in
      (
        t,
        rw (e, release) returns,
        j,
        Released-trans (λ x m. inr m) (tell-Released op_local c d i e f) r,
      )
