-- ===== src/Additive/Joint/Arrivals.antt =====
-- src/example/additive.rs with src/mpc/execution.rs: each player does the operations one after the other
-- with the scheme as the executor calls it, on what arrives from the others.
use mpc_core.Prelude.{
  ℕ, suc, ◌+◌, ◌^◌, ◌≤◌, ◌<◌, ◌≡◌, refl, ◌∙◌, sym, ap, Option, none, some, List, [], ◌∷◌, arith,
  length,
}
use mpc_core.Prelude.{
  Outcome, ok, err, panic, out_of_fuel, >>=-eq-ok, Option-cases, Bool-cases, inl, inr, is_some,
}
use mpc_core.Prelude.Map
use mpc_core.Prelude.Map.{HashMap}
use mpc_core.Operation.{WireId}
use mpc_core.Network.{Network, ReceiveRequest}
use mpc_core.Execution.Sequence.{read, write, one, each}
use mpc_core.Execution.Sequence.Steps.{ok_inj}
use mpc_core.Additive.{
  AdditiveOperation, inputs, outputs, AdditiveContext, PhaseOutput, do_network_phase,
  do_finalize_phase,
}
use mpc_core.Additive.Instance.{additive_scheme, Drawing}
use mpc_core.Additive.Joint.{
  Player, Plain, begin, end, step, next, run, delivered, sends_of, Succeeds, evaluate,
}
use mpc_core.Additive.Joint.Agree.{Represents, Represents-congr}
use mpc_core.Additive.Joint.Correct.{starting, given, run-evaluate}

abbrev requests_of : Outcome ⊥ (AdditiveContext × PhaseOutput) → List ReceiveRequest
requests_of (ok (c, out)) = out.receive_request
requests_of (err e) = absurd e
requests_of panic = []
requests_of out_of_fuel = []

-- What arrives at player `me` for an operation, when every player has begun it.
abbrev pub arriving : ℕ → (ℕ → ℕ → ℕ) → AdditiveOperation → (ℕ → Player) → ℕ → List ℕ
arriving m draw op players me =
    delivered (λ j. sends_of (begin m (draw j) op (players j))) me
      (requests_of (begin m (draw me) op (players me)))

-- The operations, each with what arrives at `me`.
abbrev pub arrivals :
    ℕ
    → ℕ
    → (ℕ → ℕ → ℕ → ℕ)
    → List AdditiveOperation
    → (ℕ → Player)
    → ℕ
    → List (AdditiveOperation × List ℕ)
arrivals m k draws [] players me = []
arrivals m k draws (op ∷ ops) players me =
    (op, arriving m (draws k) op players me)
    ∷ arrivals m (suc k) draws ops (next m (draws k) op players) me

-- The contents of a wire in what a run leaves.
abbrev pub content : Outcome (Unit {0}) (Drawing × HashMap ℕ) → WireId → Option ℕ
content (ok (context, wires)) w = Map.get wires w
content _ w = none

read_any :
    {E F : Type 0} (wires : HashMap ℕ) (ids : List WireId) (xs : List ℕ)
    → read {E = E} wires ids ≡ ok xs
    → read {E = F} wires ids ≡ ok xs
unfolding read
read_any wires [] xs h = ap ok (ok_inj h)
read_any {E} {F} wires (id ∷ ids) xs h = elim (Option-cases (Map.get wires id)) [
  | inl e ↦ let bad = rw e at h in cc
  | inr (x, e) ↦
      let (ys, rest, is) = >>=-eq-ok (read {E = E} wires ids) (λ ys. ok (x ∷ ys)) (rw e at h) in
      rw (e, read_any {E = E} {F = F} wires ids ys rest) (ap ok (ok_inj is))
]

write_any :
    {E F : Type 0} (wires : HashMap ℕ) (ids : List WireId) (xs : List ℕ) (to : HashMap ℕ)
    → write {E = E} wires ids xs ≡ ok to
    → write {E = F} wires ids xs ≡ ok to
unfolding write
write_any wires [] [] to h = ap ok (ok_inj h)
write_any {E} {F} wires (id ∷ ids) (x ∷ xs) to h = elim (Bool-cases (is_some (Map.get wires id))) [
  | inl e ↦ let bad = rw e at h in cc
  | inr e ↦ rw e (write_any {E = E} {F = F} (Map.put wires id x) ids xs to (rw e at h))
]
write_any wires [] (x ∷ xs) to h = cc
write_any wires (id ∷ ids) [] to h = cc

module _ (m : ℕ) (pos : 0 < m) {Net Hash : Type 0} (N : Network Net Hash ℕ) (fuel : ℕ)
    (draws : ℕ → ℕ → ℕ → ℕ) (me : ℕ) where
  begin_ok :
      (draw : ℕ → ℕ) (op : AdditiveOperation) (p : Player) (c : AdditiveContext) (out : PhaseOutput)
      → begin m draw op p ≡ ok (c, out)
      → (ins : List ℕ) × (read {E = ⊥} p.wires (inputs op) ≡ ok ins)
        × (do_network_phase m draw p.context op ins ≡ ok (c, out))
  unfolding begin
  begin_ok draw op p c out h = >>=-eq-ok (read p.wires (inputs op)) _ h

  finished-one :
      (k : ℕ) (op : AdditiveOperation) (players : ℕ → Player) (p : Player) (ins : List ℕ)
      (c : AdditiveContext) (out : PhaseOutput) (values : List ℕ) (to : HashMap ℕ)
      → read {E = ⊥} (players me).wires (inputs op) ≡ ok ins
      → do_network_phase m (draws k me) (players me).context op ins ≡ ok (c, out)
      → begin m (draws k me) op (players me) ≡ ok (c, out)
      → do_finalize_phase m out.pending
          (delivered (λ j. sends_of (begin m (draws k j) op (players j))) me out.receive_request)
        ≡ ok values
      → write {E = ⊥} (players me).wires (outputs op) values ≡ ok to
      → p ≡ record { context = c; wires = to }
      → one
          (additive_scheme m pos N fuel (λ k. draws k me))
          op
          (arriving m (draws k) op players me)
          (((players me).context, k), (players me).wires)
        ≡ ok ((p.context, suc k), p.wires)
  unfolding one
  finished-one k op players p ins c out values to reads phase begun ends writes is =
      rw
        (
          is,
          read_any {E = ⊥} {F = Unit {0}} (players me).wires (inputs op) ins reads,
          phase,
          begun,
          ends,
          write_any {E = ⊥} {F = Unit {0}} (players me).wires (outputs op) values to writes,
        )
        refl

  ended-one :
      (k : ℕ) (op : AdditiveOperation) (players : ℕ → Player) (p : Player) (ins : List ℕ)
      (c : AdditiveContext) (out : PhaseOutput)
      → read {E = ⊥} (players me).wires (inputs op) ≡ ok ins
      → do_network_phase m (draws k me) (players me).context op ins ≡ ok (c, out)
      → begin m (draws k me) op (players me) ≡ ok (c, out)
      → end m op (λ j. sends_of (begin m (draws k j) op (players j))) me (players me).wires (c, out)
        ≡ ok p
      → one
          (additive_scheme m pos N fuel (λ k. draws k me))
          op
          (arriving m (draws k) op players me)
          (((players me).context, k), (players me).wires)
        ≡ ok ((p.context, suc k), p.wires)
  unfolding end
  ended-one k op players p ins c out reads phase begun h =
      let (values, ends, h1) =
        >>=-eq-ok
          (do_finalize_phase m out.pending
            (delivered (λ j. sends_of (begin m (draws k j) op (players j))) me out.receive_request))
          _ h in
      let (to, writes, h2) =
        >>=-eq-ok (write {E = ⊥} (players me).wires (outputs op) values) _ h1 in
      finished-one k op players p ins c out values to reads phase begun ends writes
        (sym (ok_inj h2))

  step-one :
      (k : ℕ) (op : AdditiveOperation) (players : ℕ → Player) (p : Player)
      → step m (draws k) op players me ≡ ok p
      → one
          (additive_scheme m pos N fuel (λ k. draws k me))
          op
          (arriving m (draws k) op players me)
          (((players me).context, k), (players me).wires)
        ≡ ok ((p.context, suc k), p.wires)
  unfolding step
  step-one k op players p h =
      let ((c, out), begun, h1) = >>=-eq-ok (begin m (draws k me) op (players me)) _ h in
      let (ins, reads, phase) = begin_ok (draws k me) op (players me) c out begun in
      ended-one k op players p ins c out reads phase begun h1

  pub Succeeds-each :
      (n k : ℕ) (ops : List AdditiveOperation) (players : ℕ → Player)
      → me < n
      → Succeeds m n k draws ops players
      → each
          (additive_scheme m pos N fuel (λ k. draws k me))
          (arrivals m k draws ops players me)
          (((players me).context, k), (players me).wires)
        ≡ ok (
          ((run m k draws ops players me).context, k + length ops),
          (run m k draws ops players me).wires,
        )
  unfolding each run
  Succeeds-each n k [] players lt runs =
      ap (λ i. ok (((players me).context, i), (players me).wires)) (omega arith)
  Succeeds-each n k (op ∷ ops) players lt (first, later) =
      let this = step-one k op players _ (first me lt) in
      rw this (
        Succeeds-each n (suc k) ops (next m (draws k) op players) lt later
        ∙ ap
            (λ i. ok (
              ((run m (suc k) draws ops (next m (draws k) op players) me).context, i),
              (run m (suc k) draws ops (next m (draws k) op players) me).wires,
            ))
            (omega arith))

module _ (m n : ℕ) (user_inputs : ℕ → HashMap ℕ) (pos : 0 < m) {Net Hash : Type 0}
    (N : ℕ → Network Net Hash ℕ) (fuel : ℕ) where
  -- The executor's view of secure evaluation, for `M` from 1 to `2 ^ 63` and drawn values below `M`. Each of
  -- `n` players does the operations one after the other, with the scheme as the executor calls it, from
  -- its inputs and no wires, and gets for each operation what the others have sent it. When the operations
  -- can be evaluated on the plain values, all players have contents for a wire with a value: those of a shared
  -- value are below `M` and add up to it modulo `M`, and those of a public one are the value.
  pub each-evaluate :
      (ops : List AdditiveOperation) (draws : ℕ → ℕ → ℕ → ℕ) (vals : HashMap Plain) (w : WireId)
      (v : Plain)
      → m ≤ 2 ^ 63
      → ((k j i : ℕ) → draws k j i < m)
      → evaluate m n (given m n user_inputs) 0 draws ops [] ≡ some vals
      → Map.get vals w ≡ some v
      → Represents m n (given m n user_inputs) v λ i.
        content
          (each
            (additive_scheme m pos (N i) fuel (λ k. draws k i))
            (arrivals m 0 draws ops (starting n user_inputs) i)
            (((starting n user_inputs i).context, 0), []))
          w
  each-evaluate ops draws vals w v small below e here =
      let (runs, holds) = run-evaluate m n user_inputs ops draws vals w v pos small below e here in
      Represents-congr m n (given m n user_inputs) v _ _
        (λ i lt.
          ap (λ r. content r w)
            (Succeeds-each m pos (N i) fuel draws i n 0 ops (starting n user_inputs) lt runs))
        holds
