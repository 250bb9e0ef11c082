-- ===== src/Circuit/Sort/Loops.antt =====
-- The loops of the sort return within their fuel, and run steps only.
use mpc_core.Prelude.{ℕ, zero, suc, ◌+◌, ◌≤◌, ◌≡◌, refl, Bool, List, [], ◌∷◌, get_elem?}
use Prim.Native.Nat.{min}
use mpc_core.Prelude.{
  length, arith, ok, Outcome, inl, inr, subst, ap, List-cases, nil_of_length, count,
}
use mpc_core.Operation.{Gates}
use mpc_core.Circuit.{Round, MpcCircuitError}
use mpc_core.Circuit.Sort.{State, pop, drain_step, drain, begin_round, end_round, wave_step}
use mpc_core.Circuit.Sort.{process_wave}
use mpc_core.Circuit.Sort.Invariant.{Inv}
use mpc_core.Circuit.Sort.Steps.{Step, visit-Step, with_head, inner_measure, outer_measure}

module _ (S : Gates) (adj : List (List ℕ)) (n : ℕ) (len_adj : length adj ≡ n) (defer : Bool) where
  open S use {Operation}

  abbrev popped : List ℕ → State Operation → State Operation
  popped wave s = record s { wave = wave }

  -- The steps of one run of the inner loop, until the wave is empty.
  pub data Steps : State Operation → State Operation → Type 0 where
    last : {s t : State Operation} → s.wave ≡ [] → t ≡ s → Steps s t
    more :
        {i : ℕ} {wave : List ℕ} {s t u : State Operation}
        → s.wave ≡ i ∷ wave
        → Inv S adj n [] s
        → Step S adj n len_adj defer i (popped wave s) t
        → Steps t u
        → Steps s u

  -- A run of the inner loop with enough fuel.
  pub record Drains (s : State Operation) (f : ℕ) : Type 0 where
    pub out : State Operation
    pub returns : drain S adj defer f s ≡ ok out
    pub inv : Inv S adj n [] out
    pub empty : out.wave ≡ []
    pub steps : Steps s out
    pub outer :
        outer_measure S adj n len_adj out + min 1 (length s.wave) ≤ outer_measure S adj n len_adj s

  stop-Drains : (f : ℕ) (s : State Operation) → s.wave ≡ [] → Inv S adj n [] s → Drains s f
  unfolding drain
  stop-Drains zero s e v = record {
    out = s;
    returns = rw (e, drain_step) refl;
    inv = v;
    empty = e;
    steps = last e refl;
    outer = omega (arith, ap length e);
  }
  stop-Drains (suc f) s e v = record {
    out = s;
    returns = rw (e, drain_step) refl;
    inv = v;
    empty = e;
    steps = last e refl;
    outer = omega (arith, ap length e);
  }

  drain-pop :
      (f i : ℕ) (wave : List ℕ) (s t u : State Operation)
      → s.wave ≡ i ∷ wave
      → pop S adj defer i (get_elem? s.ops i) (popped wave s) ≡ ok t
      → drain S adj defer f t ≡ ok u
      → drain S adj defer (suc f) s ≡ ok u
  unfolding drain
  drain-pop f i wave s t u e visits rest = rw (e, drain_step, visits) rest

  pub drain-Drains :
      (f : ℕ) (s : State Operation)
      → Inv S adj n [] s
      → inner_measure S adj n len_adj s ≤ f
      → Drains s f
  drain-Drains zero s v m = stop-Drains zero s (nil_of_length s.wave (omega arith)) v
  drain-Drains (suc f) s v m = elim (List-cases s.wave) [
    | inl e ↦ stop-Drains (suc f) s e v
    | inr (i, wave, e) ↦
        let w : Inv S adj n [] (with_head S adj n len_adj i (popped wave s)) =
          subst (λ l. Inv S adj n [] (popped l s)) e v in
        let (t, returns, u, st, inner, outer) =
          visit-Step S adj n len_adj defer {s = popped wave s} i w in
        let rest = drain-Drains f t u (omega (arith, ap length e)) in
        record {
          out = rest.out;
          returns = drain-pop f i wave s t rest.out e returns rest.returns;
          inv = rest.inv;
          empty = rest.empty;
          steps = more e v st rest.steps;
          outer = omega (arith, ap length e, rest.outer);
        }
  ]

  begin_round-Inv :
      {s : State Operation}
      → s.next_wave ≡ []
      → Inv S adj n [] s
      → Inv S adj n [] (begin_round S adj defer s)
  unfolding begin_round
  begin_round-Inv e v = record {
    len_ops = v.len_ops;
    len_deg = v.len_deg;
    degree = v.degree;
    queued = λ c. omega (arith, v.queued c, ap (count c) e);
    closed = v.closed;
    fits = omega (arith, v.fits, ap length e);
  }

  end_round-Inv :
      {s : State Operation} (rounds : List (Round Operation))
      → s.wave ≡ []
      → Inv S adj n [] s
      → Inv S adj n [] (end_round S adj defer s rounds).0
  unfolding end_round
  end_round-Inv rounds e v = record {
    len_ops = v.len_ops;
    len_deg = v.len_deg;
    degree = v.degree;
    queued = λ c. omega (arith, v.queued c, ap (count c) e);
    closed = v.closed;
    fits = omega (arith, v.fits, ap length e);
  }

  -- The runs of the outer loop, from a state and the rounds pushed so far.
  pub data Rounds
      : State Operation × List (Round Operation)
        → State Operation × List (Round Operation)
        → Type 0 where
    last :
        {s : State Operation} {rounds : List (Round Operation)}
        {q : State Operation × List (Round Operation)}
        → s.wave ≡ []
        → q ≡ (s, rounds)
        → Rounds (s, rounds) q
    more :
        {s t : State Operation} {rounds : List (Round Operation)}
        {q : State Operation × List (Round Operation)}
        → Inv S adj n [] s
        → s.next_wave ≡ []
        → Steps (begin_round S adj defer s) t
        → t.wave ≡ []
        → Rounds (end_round S adj defer t rounds) q
        → Rounds (s, rounds) q

  -- A run of `process_wave` with enough fuel.
  pub record Processes (s : State Operation) (rounds : List (Round Operation)) (f g : ℕ)
      : Type 0 where
    pub out : State Operation × List (Round Operation)
    pub returns : process_wave S adj defer f g (s, rounds) ≡ ok out
    pub inv : Inv S adj n [] out.0
    pub empty : out.0.wave ≡ []
    pub no_next : out.0.next_wave ≡ []
    pub history : Rounds (s, rounds) out

  stop-Processes :
      (f g : ℕ) {s : State Operation} (rounds : List (Round Operation))
      → s.wave ≡ []
      → s.next_wave ≡ []
      → Inv S adj n [] s
      → Processes s rounds f g
  unfolding process_wave
  stop-Processes zero g {s} rounds e k v = record {
    out = (s, rounds);
    returns = rw (e, wave_step) refl;
    inv = v;
    empty = e;
    no_next = k;
    history = last e refl;
  }
  stop-Processes (suc f) g {s} rounds e k v = record {
    out = (s, rounds);
    returns = rw (e, wave_step) refl;
    inv = v;
    empty = e;
    no_next = k;
    history = last e refl;
  }

  wave_step-run :
      (again : State Operation × List (Round Operation)
        → Outcome MpcCircuitError (State Operation × List (Round Operation)))
      (g i : ℕ) (wave l : List ℕ) (s t : State Operation) (rounds : List (Round Operation))
      (q : State Operation × List (Round Operation))
      → l ≡ i ∷ wave
      → drain S adj defer g (begin_round S adj defer s) ≡ ok t
      → again (end_round S adj defer t rounds) ≡ ok q
      → wave_step S adj defer again g l s rounds ≡ ok q
  unfolding wave_step
  wave_step-run again g i wave [] s t rounds q e drains rest = cc
  wave_step-run again g i wave (x ∷ l) s t rounds q e drains rest = rw drains rest

  process_wave-round :
      (f g i : ℕ) (wave : List ℕ) (s t : State Operation) (rounds : List (Round Operation))
      (q : State Operation × List (Round Operation))
      → s.wave ≡ i ∷ wave
      → drain S adj defer g (begin_round S adj defer s) ≡ ok t
      → process_wave S adj defer f g (end_round S adj defer t rounds) ≡ ok q
      → process_wave S adj defer (suc f) g (s, rounds) ≡ ok q
  unfolding process_wave
  process_wave-round f g i wave s t rounds q =
      wave_step-run (process_wave S adj defer f g) g i wave s.wave s t rounds q

  pub process_wave-Processes :
      (f g : ℕ) (s : State Operation) (rounds : List (Round Operation))
      → Inv S adj n [] s
      → s.next_wave ≡ []
      → outer_measure S adj n len_adj s ≤ f
      → n ≤ g
      → Processes s rounds f g
  unfolding process_wave
  process_wave-Processes zero g s rounds v k m fuel =
      stop-Processes zero g rounds (nil_of_length s.wave (omega arith)) k v
  process_wave-Processes (suc f) g s rounds v k m fuel = elim (List-cases s.wave) [
    | inl e ↦ stop-Processes (suc f) g rounds e k v
    | inr (i, wave, e) ↦
        let d = drain-Drains g (begin_round S adj defer s) (begin_round-Inv k v) (omega arith) in
        let next = end_round S adj defer d.out rounds in
        let rest =
          process_wave-Processes f g next.0 next.1 (end_round-Inv rounds d.empty d.inv) refl
            (omega (arith, d.outer, ap length d.empty, ap length e, ap length k)) fuel in
        record {
          out = rest.out;
          returns = process_wave-round f g i wave s d.out rounds rest.out e d.returns rest.returns;
          inv = rest.inv;
          empty = rest.empty;
          no_next = rest.no_next;
          history = more v k d.steps d.empty rest.history;
        }
  ]
