-- ===== src/Additive/Tests.antt =====
-- src/example/additive.rs: the repository's unit tests, and uses of the theorems at concrete inputs.
use mpc_core.Prelude.{ℕ, ◌<◌, ◌≡◌, refl, sym, ap, ◌∙◌, zero, suc, ◌∈◌, true, false, List, [], ◌∷◌}
use mpc_core.Prelude.{map, ok, out_of_fuel, All, arith, not, ◌==◌, length, inl, inr}
use mathlib.Core.List.{Perm}
use mpc_core.Prelude.Map
use mpc_core.Additive.{AdditiveOperation, input, add, reveal, is_operation_local, output_of}
use mpc_core.Additive.{
  AdditiveContext, PhaseOutput, do_network_phase, do_finalize_phase, reveal_pending,
}
use mpc_core.Additive.Phases.{share-reveal, phases_lem, input_of}
use mpc_core.Additive.Sound.{is_circuit_sound}
use mpc_core.Additive.Sound.Passes.{is_circuit_sound_lem, is_circuit_sound-endless, IsUnambiguous}

abbrev adding_ops : List AdditiveOperation
adding_ops = input 0 0 ∷ input 1 1 ∷ add 0 1 2 ∷ reveal 2 3 ∷ []

sound_ops : is_circuit_sound 1000 5 adding_ops ≡ ok true
unfolding is_circuit_sound Map.get Map.put
sound_ops = refl

zero_modulus : is_circuit_sound 0 2 (input 0 0 ∷ []) ≡ ok false
unfolding is_circuit_sound
zero_modulus = refl

abbrev by_output : ℕ → AdditiveOperation
by_output zero = input 0 0
by_output (suc zero) = input 1 1
by_output (suc (suc zero)) = add 0 1 2
by_output (suc (suc (suc n))) = reveal 2 3

adding-by_output : (p : AdditiveOperation) → p ∈ adding_ops → p ≡ by_output (output_of p)
adding-by_output p (inl e) = rw e refl
adding-by_output p (inr (inl e)) = rw e refl
adding-by_output p (inr (inr (inl e))) = rw e refl
adding-by_output p (inr (inr (inr (inl e)))) = rw e refl
adding-by_output p (inr (inr (inr (inr h)))) = absurd h

adding-IsUnambiguous : IsUnambiguous adding_ops
adding-IsUnambiguous p q m n e = adding-by_output p m ∙ ap by_output e ∙ sym (adding-by_output q n)

is_circuit_sound_lem_example : is_circuit_sound 1000 5 adding_ops ≡ ok (not (1000 == 0))
is_circuit_sound_lem_example = is_circuit_sound_lem 1000 adding_ops adding-IsUnambiguous

is_circuit_sound-endless_example : is_circuit_sound 7 40 (input 0 5 ∷ reveal 3 5 ∷ []) ≡ out_of_fuel
is_circuit_sound-endless_example = is_circuit_sound-endless 0 3 5 7 40 (omega arith)

-- Player 1 of 3, with the input 10 at wire 4.
abbrev sharer : AdditiveContext
sharer = record { my_id = 1; n_players = 3; user_inputs = (4, 10) ∷ [] }

share-reveal_example :
    (s : ℕ) × (c : AdditiveContext) × (out : PhaseOutput) × (do_network_phase 100
        (λ i. 42)
        sharer
        (input 1 4)
        []
      ≡ ok (c, out))
    × (do_finalize_phase 100 out.pending [] ≡ ok (s ∷ []))
    × ((z : ℕ) (rs : List ℕ)
        → Perm (s ∷ map (λ r. r.payload) out.send_request) (z ∷ rs)
        → z < 100
        → All (λ r. r < 100) rs
        → do_finalize_phase 100 (reveal_pending z) rs ≡ ok (input_of 100 sharer 4 ∷ []))
share-reveal_example =
    share-reveal 100 (omega arith) (omega arith) (λ i. 42) sharer 4 [] (λ i. omega arith)

phases_lem_example :
    (c : AdditiveContext) × (out : PhaseOutput) × (do_network_phase 100
        (λ i. 42)
        sharer
        (add 1 2 3)
        (70 ∷ 50 ∷ [])
      ≡ ok (c, out))
    × All (λ r. r.payload < 100) out.send_request
    × (is_operation_local (add 1 2 3) ≡ true → (out.send_request ≡ []) × (out.receive_request ≡ []))
    × ((received : List ℕ)
        → length received ≡ length out.receive_request
        → All (λ v. v < 100) received
        → (w : ℕ) × (do_finalize_phase 100 out.pending received ≡ ok (w ∷ [])) × (w < 100))
phases_lem_example =
    phases_lem 100 (omega arith) (omega arith) (λ i. 42) sharer (add 1 2 3) (70 ∷ 50 ∷ [])
      (λ i. omega arith) refl (omega arith, (omega arith, tt))
