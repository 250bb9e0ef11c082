-- ===== src/Circuit/Sort/Steps.antt =====
-- The sort as a step relation: an operation of the current wave is put off or taken. The loops run
-- such steps, return within their fuel, and keep the invariant.
use mpc_core.Prelude.{ℕ, zero, ◌+◌, ◌≤◌, ◌≡◌, refl, Bool, true, false, ◌&&◌}
use mpc_core.Prelude.{none, some, List, [], ◌∷◌, ◌++◌, get_elem?, count, length}
use mpc_core.Prelude.{arith, ok, ◌==◌, inl, inr, Bool-cases, ==→≡, ==→≢}
use mpc_core.Prelude.{get_elem?-lt, lt-get_elem?, get_or-eq_of_get_elem?, get_elem?-set_self}
use mpc_core.Prelude.{get_elem?-set_ne, length-set, length-append, count-append, count_self}
use mpc_core.Operation.{Gates, is_input}
use mpc_core.Circuit.Sort.{State, schedule, pop}
use mpc_core.Circuit.Sort.Pending.{
  need, blocked, need-set, blocked-set_taken, is_ready-pos, is_ready-le,
}
use mpc_core.Circuit.Sort.Invariant.{Inv, Released, release-Inv}

module _ (S : Gates) (adj : List (List ℕ)) (n : ℕ) (len_adj : length adj ≡ n) where
  open S use {Operation, is_operation_local}

  -- What the head of the wave is, at a state that meets the invariant.
  pub record Head (i : ℕ) (s : State Operation) : Type 0 where
    pub op : Operation
    pub at : get_elem? s.ops i ≡ some (some op)
    pub idle : get_elem? s.in_degree i ≡ some zero
    pub free : need s.ops adj i ≡ 0
    pub once : count i s.wave + count i s.next_wave + count i s.online_wave ≡ 0
    pub consumers : List ℕ
    pub edges : get_elem? adj i ≡ some consumers

  abbrev pub with_head : ℕ → State Operation → State Operation
  with_head i s = record s { wave = i ∷ s.wave }

  Head_lem : {s : State Operation} (i : ℕ) → Inv S adj n [] (with_head i s) → Head i s
  Head_lem {s} i v =
      let (op, at, idle) =
        is_ready-pos (get_elem? s.ops i) (get_elem? s.in_degree i)
          (omega (arith, v.queued i, count_self i s.wave)) in
      let (a, edges) =
        get_elem?-lt adj i (omega (arith, len_adj, v.len_ops, lt-get_elem? s.ops i at)) in
      record {
        op = op;
        at = at;
        idle = idle;
        free = omega (arith, v.degree i, get_or-eq_of_get_elem? s.in_degree i 0 idle);
        once = omega (
          arith,
          v.queued i,
          count_self i s.wave,
          is_ready-le (get_elem? s.ops i) (get_elem? s.in_degree i),
        );
        consumers = a;
        edges = edges;
      }

  -- A state after the head `i` is put off.
  abbrev pub put_off : ℕ → State Operation → State Operation
  put_off i s = record s { online_wave = s.online_wave ++ i ∷ [] }

  put_off-Inv :
      {s : State Operation} (i : ℕ) → Inv S adj n [] (with_head i s) → Inv S adj n [] (put_off i s)
  put_off-Inv {s} i v = record {
    len_ops = v.len_ops;
    len_deg = v.len_deg;
    degree = v.degree;
    queued = λ c. ground (arith, v.queued c, count-append c s.online_wave (i ∷ []));
    closed = v.closed;
    fits = omega (arith, v.fits, length-append s.online_wave (i ∷ []));
  }

  schedule-Inv :
      {s : State Operation} (i : ℕ) (h : Head i s)
      → Inv S adj n [] (with_head i s)
      → Inv S adj n h.consumers (schedule S i h.op s)
  unfolding schedule
  schedule-Inv {s} i h v = record {
    len_ops = ground (arith, v.len_ops, length-set s.ops i none);
    len_deg = ground (arith, v.len_deg);
    degree = λ c. ground (arith, v.degree c, need-set s.ops adj i c h.at h.edges);
    queued = λ c. elim (Bool-cases (i == c)) [
      | inl same ↦ ground (
        arith,
        ==→≡ i c same,
        h.once,
        get_elem?-set_self s.ops i none (lt-get_elem? s.ops i h.at),
      )
      | inr other ↦ ground (arith, v.queued c, get_elem?-set_ne s.ops i c none (==→≢ i c other))
    ];
    closed = λ c g. elim (Bool-cases (i == c)) [
      | inl same ↦ ground (arith, ==→≡ i c same, get_or-eq_of_get_elem? s.in_degree i 0 h.idle)
      | inr other ↦ ground (arith, v.closed c, get_elem?-set_ne s.ops i c none (==→≢ i c other))
    ];
    fits = ground (arith, v.fits, blocked-set_taken s.ops s.in_degree i h.idle);
  }

  -- One round of the inner loop, from the state without the popped head.
  pub data Step (defer : Bool) (i : ℕ) (s t : State Operation) : Type 0 where
    deferred :
        (h : Head i s) → (defer && is_input S h.op) ≡ true → t ≡ put_off i s → Step defer i s t
    taken :
        (h : Head i s)
        → (defer && is_input S h.op) ≡ false
        → Released S adj n (is_operation_local h.op) h.consumers (schedule S i h.op s) t
        → Step defer i s t

  -- These fall in each round of the inner and of the outer loop.
  abbrev pub inner_measure : State Operation → ℕ
  inner_measure s = length s.wave + blocked s.ops s.in_degree

  abbrev pub outer_measure : State Operation → ℕ
  outer_measure s = length s.wave + length s.next_wave + blocked s.ops s.in_degree

  schedule_measures :
      {s : State Operation} (i : ℕ) (h : Head i s)
      → (inner_measure (schedule S i h.op s) ≡ inner_measure s)
        × (outer_measure (schedule S i h.op s) ≡ outer_measure s)
  unfolding schedule
  schedule_measures {s} i h = (
    ground (arith, blocked-set_taken s.ops s.in_degree i h.idle),
    ground (arith, blocked-set_taken s.ops s.in_degree i h.idle),
  )

  module _ (defer : Bool) where
    -- Popping `i` and visiting it is a step, and does not panic.
    pub visit-Step :
        {s : State Operation} (i : ℕ)
        → Inv S adj n [] (with_head i s)
        → (t : State Operation) × (pop S adj defer i (get_elem? s.ops i) s ≡ ok t)
          × Inv S adj n [] t
          × Step defer i s t
          × (inner_measure t ≤ inner_measure s)
          × (outer_measure t ≤ outer_measure s)
    unfolding pop
    visit-Step {s} i v =
        let h = Head_lem i v in
        elim (Bool-cases (defer && is_input S h.op)) [
          | inl later ↦ (
            put_off i s,
            rw (h.at, pop, later) refl,
            put_off-Inv i v,
            deferred h later refl,
            omega arith,
            omega arith,
          )
          | inr now ↦
              let (t, returns, w, r) =
                release-Inv S adj n (is_operation_local h.op) h.consumers (schedule S i h.op s)
                  (schedule-Inv i h v) in
              (
                t,
                rw (h.at, pop, now, h.edges) returns,
                w,
                taken h now r,
                omega (arith, r.inner, (schedule_measures i h).0),
                omega (arith, r.outer, (schedule_measures i h).1),
              )
        ]
