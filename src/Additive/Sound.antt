-- ===== src/Additive/Sound.antt =====
-- src/example/additive.rs: `is_circuit_sound`, which types the wires in passes until nothing changes.
-- The loop takes fuel.
pub mod Passes
use mpc_core.Prelude.{ℕ, zero, suc, ◌≤◌, ◌<◌, ◌≡◌, refl, ◌∙◌, sym, ap, Bool, true, false, not, ◌||◌}
use mpc_core.Prelude.{Option, none, some, List, [], ◌∷◌, length, Outcome, ok, out_of_fuel, ◌==◌}
use mpc_core.Prelude.{if◌then◌else◌, ◌∈◌, inl, inr, arith, Bool-cases, Option-cases, ==→≡, ==_refl}
use mpc_core.Prelude.{◌⊎◌}
use mpc_core.Prelude.Map
use mpc_core.Prelude.Map.{HashMap, get-put}
use mpc_core.Operation.{WireId}
use mpc_core.Additive.{AdditiveOperation, input, gen_random, add, reveal, output_of}

pub data WireType : Type 0 where
  shared public : WireType

abbrev pub same_type : WireType → WireType → Bool
same_type shared shared = true
same_type public public = true
same_type _ _ = false

-- `match (t1, t2)`
abbrev pub sum_type : Option WireType → Option WireType → Option WireType
sum_type (some public) (some public) = some public
sum_type (some s) (some t) = some shared
sum_type none t = none
sum_type (some s) none = none

unfoldable pub new_type : HashMap WireType → AdditiveOperation → Option WireType
new_type wire_types (input p w) = some shared
new_type wire_types (gen_random w) = some shared
new_type wire_types (add l r w) = sum_type (Map.get wire_types l) (Map.get wire_types r)
new_type wire_types (reveal v w) = some public

-- `wire_types.insert(out, ty) != Some(ty)`
abbrev pub differs : Option WireType → WireType → Bool
differs none ty = true
differs (some old) ty = not (same_type old ty)

-- What the inner loop does with an operation, whose new type is given; every operation has one output.
abbrev pub type_output :
    Option WireType → WireId → HashMap WireType × Bool → HashMap WireType × Bool
type_output none w (wire_types, changed) = (wire_types, changed)
type_output (some ty) w (wire_types, changed) =
    (Map.put wire_types w ty, changed || differs (Map.get wire_types w) ty)

-- `for op in &ops`
unfoldable pub type_pass :
    List AdditiveOperation → HashMap WireType × Bool → HashMap WireType × Bool
unfolding new_type
type_pass [] s = s
type_pass (op ∷ ops) s = type_pass ops (type_output (new_type s.0 op) (output_of op) s)

-- `while changed`
unfoldable pub type_loop : ℕ → List AdditiveOperation → HashMap WireType → Outcome ⊥ Bool
unfolding type_pass
type_loop zero ops wire_types = out_of_fuel
type_loop (suc fuel) ops wire_types =
    let s = type_pass ops (wire_types, false) in
    let rest = type_loop fuel ops s.0 in if s.1 then rest else ok true

unfoldable pub is_circuit_sound : ℕ → ℕ → List AdditiveOperation → Outcome ⊥ Bool
unfolding type_loop
is_circuit_sound m fuel ops = if m == 0 then ok false else type_loop fuel ops []
