-- ===== src/Additive.antt =====
-- src/example/additive.rs: additive sharing modulo `M`. `u64` addition and subtraction are checked, as
-- in a build with overflow checks, and `% 0` panics. The values that the generator gives are the
-- function `draw`, the one for player `i` being `draw i`.
pub mod Sharing
pub mod Phases
pub mod Sound
pub mod Joint
pub mod Instance
pub mod RunTests
pub mod SequenceTests
pub mod Tests
use mpc_core.Prelude.{ℕ, zero, suc, ◌+◌, ◌-◌, ◌%◌, ◌^◌, Bool, true, false, Option, none, some}
use mpc_core.Prelude.{
  List, [], ◌∷◌, map, Outcome, ok, panic, ◌>>=◌, unwrap, ltb, ◌==◌, if◌then◌else◌,
}
use mpc_core.Prelude.Map
use mpc_core.Prelude.Map.{HashMap}
use mpc_core.Operation.{WireId}
use mpc_core.Network.{SendRequest, ReceiveRequest, send_request, receive_request}
use mpc_core.Scheme.{NetworkPhaseOutput}

pub data AdditiveOperation : Type 0 where
  input : (party_id : ℕ) (output : WireId) → AdditiveOperation
  gen_random : (output : WireId) → AdditiveOperation
  add : (left right output : WireId) → AdditiveOperation
  reveal : (source output : WireId) → AdditiveOperation

abbrev pub get_input_party_id : AdditiveOperation → Option ℕ
get_input_party_id (input party_id output) = some party_id
get_input_party_id _ = none

abbrev pub inputs : AdditiveOperation → List WireId
inputs (input party_id output) = []
inputs (gen_random output) = []
inputs (add left right output) = left ∷ right ∷ []
inputs (reveal source output) = source ∷ []

abbrev pub output_of : AdditiveOperation → WireId
output_of (input party_id output) = output
output_of (gen_random output) = output
output_of (add left right output) = output
output_of (reveal source output) = output

abbrev pub outputs : AdditiveOperation → List WireId
outputs op = output_of op ∷ []

abbrev pub is_operation_local : AdditiveOperation → Bool
is_operation_local (add left right output) = true
is_operation_local (gen_random output) = true
is_operation_local _ = false

pub record AdditiveContext : Type 0 where
  pub my_id : ℕ
  pub n_players : ℕ
  pub user_inputs : HashMap ℕ

pub data AdditivePending : Type 0 where
  input_pending : (is_inputter : Bool) (my_share : Option ℕ) → AdditivePending
  gen_random_pending : (my_share : ℕ) → AdditivePending
  add_pending : (my_share : ℕ) → AdditivePending
  reveal_pending : (my_share : ℕ) → AdditivePending

abbrev pub PhaseOutput : Type 0
PhaseOutput = NetworkPhaseOutput AdditivePending ℕ

-- `a + b` and `a - b` on `u64`
abbrev pub checked_add : ℕ → ℕ → Outcome ⊥ ℕ
checked_add a b = if ltb (a + b) (2 ^ 64) then ok (a + b) else panic

abbrev pub checked_sub : ℕ → ℕ → Outcome ⊥ ℕ
checked_sub a b = if ltb a b then panic else ok (a - b)

abbrev pub establish_context : ℕ → ℕ → AdditiveContext
establish_context my_id n_players = record {
  my_id = my_id;
  n_players = n_players;
  user_inputs = [];
}

-- The players that a loop over `i..i + n` does not skip.
unfoldable pub others : ℕ → ℕ → ℕ → List ℕ
others my_id i zero = []
others my_id i (suc n) = let rest = others my_id (suc i) n in if i == my_id then rest else i ∷ rest

-- `unwrap_or(0)`
abbrev pub or_zero : Option ℕ → ℕ
or_zero none = 0
or_zero (some v) = v

abbrev pub phase_output : AdditivePending → List (SendRequest ℕ) → List ReceiveRequest → PhaseOutput
phase_output pending sends receives = record {
  pending = pending;
  send_request = sends;
  receive_request = receives;
}

module _ (m : ℕ) where
  -- `a % M`
  abbrev pub rem : ℕ → Outcome ⊥ ℕ
  rem a = if m == 0 then panic else ok (a % m)

  -- `rng.gen_range(0..M)` panics on the empty range.
  abbrev pub gen_range : ℕ → Outcome ⊥ ℕ
  gen_range drawn = if m == 0 then panic else ok drawn

  -- `(a + b) % M`
  abbrev pub add_mod : ℕ → ℕ → Outcome ⊥ ℕ
  add_mod a b = checked_add a b >>= rem

  -- `user_inputs.insert(wire_id, val % M)` for every input
  unfoldable pub insert_inputs : List (WireId × ℕ) → HashMap ℕ → Outcome ⊥ (HashMap ℕ)
  insert_inputs [] user_inputs = ok user_inputs
  insert_inputs ((wire_id, val) ∷ rest) user_inputs =
      rem val >>= λ reduced. insert_inputs rest (Map.put user_inputs wire_id reduced)

  unfoldable pub prepare_user_input :
      AdditiveContext → List (WireId × ℕ) → Outcome ⊥ AdditiveContext
  unfolding insert_inputs
  prepare_user_input context ins = do
    user_inputs ← insert_inputs ins context.user_inputs
    ok (record context { user_inputs = user_inputs })

  -- The loop of the inputting player over the players not skipped: the sum of the shares, and the
  -- requests.
  unfoldable pub send_shares : (ℕ → ℕ) → List ℕ → ℕ → Outcome ⊥ (ℕ × List (SendRequest ℕ))
  send_shares draw [] sum = ok (sum, [])
  send_shares draw (i ∷ is) sum = do
    share ← gen_range (draw i)
    next ← add_mod sum share
    (total, sends) ← send_shares draw is next
    ok (total, send_request i share ∷ sends)

  -- `(input_val + M - sum) % M`
  abbrev pub own_share : ℕ → ℕ → Outcome ⊥ ℕ
  own_share input_val sum = checked_add input_val m >>= λ a. checked_sub a sum >>= rem

  -- The arm of an input, for the inputting player.
  unfoldable pub share_input :
      (ℕ → ℕ) → AdditiveContext → WireId → Outcome ⊥ (AdditiveContext × PhaseOutput)
  unfolding others send_shares
  share_input draw context output = do
    input_val ← rem (or_zero (Map.get context.user_inputs output))
    (sum, sends) ← send_shares draw (others context.my_id 0 context.n_players) 0
    my_share ← own_share input_val sum
    ok (
      record context { user_inputs = Map.remove context.user_inputs output },
      phase_output (input_pending true (some my_share)) sends [],
    )

  -- `inputs_iter.next().unwrap()` panics where a value is missing.
  unfoldable pub do_network_phase :
      (ℕ → ℕ)
      → AdditiveContext
      → AdditiveOperation
      → List ℕ
      → Outcome ⊥ (AdditiveContext × PhaseOutput)
  unfolding share_input others
  do_network_phase draw context (input party_id output) ins =
      if context.my_id == party_id
      then share_input draw context output
      else ok
          (context, phase_output (input_pending false none) [] (receive_request party_id 1 ∷ []))
  do_network_phase draw context (gen_random output) ins = do
    my_share ← gen_range (draw context.my_id)
    ok (context, phase_output (gen_random_pending my_share) [] [])
  do_network_phase draw context (add l r output) (left ∷ right ∷ ins) = do
    my_share ← add_mod left right
    ok (context, phase_output (add_pending my_share) [] [])
  do_network_phase draw context (add l r output) _ = panic
  do_network_phase draw context (reveal source output) (my_share ∷ ins) =
      let players = others context.my_id 0 context.n_players in
      ok (
        context,
        phase_output (reveal_pending my_share) (map (λ i. send_request i my_share) players)
            (map (λ i. receive_request i 1) players),
      )
  do_network_phase draw context (reveal source output) [] = panic

  -- `for received in network_data_iter`
  unfoldable pub total_of : ℕ → List ℕ → Outcome ⊥ ℕ
  total_of total [] = ok total
  total_of total (received ∷ rs) = add_mod total received >>= λ next. total_of next rs

  unfoldable pub do_finalize_phase : AdditivePending → List ℕ → Outcome ⊥ (List ℕ)
  unfolding total_of
  do_finalize_phase (input_pending true my_share) network_data = do
    share ← unwrap my_share
    ok (share ∷ [])
  do_finalize_phase (input_pending false my_share) (received ∷ rs) = do
    share ← rem received
    ok (share ∷ [])
  do_finalize_phase (input_pending false my_share) [] = panic
  do_finalize_phase (gen_random_pending my_share) network_data = ok (my_share ∷ [])
  do_finalize_phase (add_pending my_share) network_data = ok (my_share ∷ [])
  do_finalize_phase (reveal_pending my_share) network_data = do
    total ← total_of my_share network_data
    ok (total ∷ [])
