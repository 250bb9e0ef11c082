-- ===== src/Additive/Joint/Tests.antt =====
-- src/example/additive.rs: three players add and reveal two inputs.
use mpc_core.Prelude.{
  ℕ, ◌*◌, ◌%◌, ◌+◌, ◌<◌, ◌≡◌, refl, some, List, [], ◌∷◌, arith, ◌==◌, if◌then◌else◌,
}
use mpc_core.Prelude.Map
use mpc_core.Prelude.Map.{HashMap}
use native.Mathlib.Nat.{mod-lt}
use mpc_core.Prelude.{ok}
use mpc_core.Network.{Network}
use mpc_core.Execution.Sequence.{each}
use mpc_core.Additive.Instance.{additive_scheme}
use mpc_core.Additive.Joint.Arrivals.{content, arrivals, each-evaluate}
use mpc_core.Additive.{AdditiveOperation, input, gen_random, add, reveal}
use mpc_core.Additive.Joint.{Plain, shared, public, next, run, Succeeds, evaluate, value_of, total}
use mpc_core.Additive.Joint.Agree.{Represents}
use mpc_core.Additive.Joint.Correct.{starting, given, run-evaluate, add-mixed}

abbrev ops : List AdditiveOperation
ops = input 0 0 ∷ input 2 1 ∷ gen_random 2 ∷ add 0 1 3 ∷ reveal 3 4 ∷ []

abbrev inputs : ℕ → HashMap ℕ
inputs i = if i == 0 then (0, 700) ∷ [] else (1, 1450) ∷ []

abbrev draws : ℕ → ℕ → ℕ → ℕ
draws k j i = (100 + 20 * k) % 1000

small_draws : (k j i : ℕ) → draws k j i < 1000
small_draws k j i = mod-lt (100 + 20 * k) (omega arith)

abbrev vals : HashMap Plain
vals = (0, shared 700) ∷ (1, shared 450) ∷ (2, shared 420) ∷ (3, shared 150) ∷ (4, public 150) ∷ []

plain_values : evaluate 1000 3 (given 1000 3 inputs) 0 draws ops [] ≡ some vals
unfolding evaluate value_of total Map.get Map.put
plain_values = refl

run-evaluate_example :
    Succeeds 1000 3 0 draws ops (starting 3 inputs)
    × Represents 1000 3
        (given 1000 3 inputs)
        (public 150)
        (λ i. Map.get (run 1000 0 draws ops (starting 3 inputs) i).wires 4)
unfolding Map.get
run-evaluate_example =
    run-evaluate 1000 3 inputs ops draws vals 4 (public 150) (omega arith) (omega arith) small_draws
      plain_values refl

abbrev revealed : List AdditiveOperation
revealed = input 0 0 ∷ input 2 1 ∷ reveal 1 2 ∷ []

abbrev revealed_vals : HashMap Plain
revealed_vals = (0, shared 700) ∷ (1, shared 450) ∷ (2, public 450) ∷ []

revealed_values : evaluate 1000 3 (given 1000 3 inputs) 0 draws revealed [] ≡ some revealed_vals
unfolding evaluate value_of Map.get Map.put
revealed_values = refl

-- 700 + 3 * 450 where 700 + 450 is meant.
add-mixed_example : Represents 1000 3 (given 1000 3 inputs) (shared 50) (λ i.
    Map.get
      (next 1000 (λ j i. 9) (add 0 2 3) (run 1000 0 draws revealed (starting 3 inputs)) i).wires
      3)
unfolding Map.get
add-mixed_example =
    add-mixed 1000 3 inputs revealed draws (λ j i. 9) revealed_vals 0 2 3 700 450 (omega arith)
      (omega arith) small_draws (λ j i. omega arith) revealed_values refl refl refl

-- The calls of the network play no part in the operations themselves.
abbrev silent : ℕ → Network ℕ (Unit {0}) ℕ
silent i = record {
  n_players = λ net. 3;
  my_id = λ net. i;
  broadcast_hash = λ net hash. (net, ok 0);
  recv_hashes = λ net requests. (net, ok ([], 0));
  send_objects_many = λ net requests. (net, ok 0);
  recv_objects_many = λ net requests. (net, ok ([], 0));
}

each-evaluate_example : Represents 1000 3 (given 1000 3 inputs) (shared 150) λ i.
    content
      (each
        (additive_scheme 1000 (omega arith) (silent i) 5 (λ k. draws k i))
        (arrivals 1000 0 draws ops (starting 3 inputs) i)
        (((starting 3 inputs i).context, 0), []))
      3
unfolding Map.get
each-evaluate_example =
    each-evaluate 1000 3 inputs (omega arith) silent 5 ops draws vals 3 (shared 150) (omega arith)
      small_draws plain_values refl
