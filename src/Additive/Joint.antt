-- ===== src/Additive/Joint.antt =====
-- src/example/additive.rs with src/mpc/execution.rs: all players run the operations, each message of an
-- operation arriving with the player that it is for; and the evaluation of the operations on plain values.
pub mod Totals
pub mod Messages
pub mod Agree
pub mod Operations
pub mod Exchanges
pub mod Correct
pub mod Arrivals
pub mod Tests
use mpc_core.Prelude.{ℕ, zero, suc, ◌+◌, ◌%◌, ◌≡◌, ◌<◌, Bool, true, false, Option, none, some}
use mpc_core.Prelude.{
  List, [], ◌∷◌, ◌++◌, Outcome, ok, err, panic, out_of_fuel, ◌>>=◌, unwrap, is_some, ltb, ◌==◌,
  if◌then◌else◌,
}
use mpc_core.Prelude.Map
use mpc_core.Prelude.Map.{HashMap}
use mpc_core.Operation.{WireId}
use mpc_core.Execution.Sequence.{read, write}
use mpc_core.Network.{SendRequest, ReceiveRequest}
use mpc_core.Additive.{
  AdditiveOperation, input, gen_random, add, reveal, inputs, outputs, output_of,
}
use mpc_core.Additive.{AdditiveContext, PhaseOutput, do_network_phase, do_finalize_phase, or_zero}

-- What a player keeps: the scheme's context and the contents of the wires.
pub record Player : Type 0 where
  pub context : AdditiveContext
  pub wires : HashMap ℕ

-- The values sent to `me`, in order.
unfoldable pub payloads : ℕ → List (SendRequest ℕ) → List ℕ
payloads me [] = []
payloads me (s ∷ sends) =
    let rest = payloads me sends in if s.to == me then s.payload ∷ rest else rest

-- What arrives for requests, when each player has sent what `sent` says.
unfoldable pub delivered : (ℕ → List (SendRequest ℕ)) → ℕ → List ReceiveRequest → List ℕ
unfolding payloads
delivered sent me [] = []
delivered sent me (r ∷ requests) = payloads me (sent r.from) ++ delivered sent me requests

abbrev pub sends_of : Outcome ⊥ (AdditiveContext × PhaseOutput) → List (SendRequest ℕ)
sends_of (ok (c, out)) = out.send_request
sends_of (err e) = absurd e
sends_of panic = []
sends_of out_of_fuel = []

module _ (m : ℕ) where
  -- The network phase of an operation at a player.
  unfoldable pub begin :
      (ℕ → ℕ) → AdditiveOperation → Player → Outcome ⊥ (AdditiveContext × PhaseOutput)
  unfolding read do_network_phase
  begin draw op p = read p.wires (inputs op) >>= λ ins. do_network_phase m draw p.context op ins

  -- Its final phase, on what the network phases of all players have sent.
  unfoldable pub end :
      AdditiveOperation
      → (ℕ → List (SendRequest ℕ))
      → ℕ
      → HashMap ℕ
      → AdditiveContext × PhaseOutput
      → Outcome ⊥ Player
  unfolding delivered write do_finalize_phase
  end op sent me wires (context, out) =
      do_finalize_phase m out.pending (delivered sent me out.receive_request) >>= λ values.
      write wires (outputs op) values >>= λ wires. ok (record { context = context; wires = wires })

  -- An operation at player `me` among the players; `draw j` are the values that player `j` draws.
  unfoldable pub step : (ℕ → ℕ → ℕ) → AdditiveOperation → (ℕ → Player) → ℕ → Outcome ⊥ Player
  unfolding begin end
  step draw op players me = begin (draw me) op (players me) >>= λ begun.
      end op (λ j. sends_of (begin (draw j) op (players j))) me (players me).wires begun

  abbrev pub or_else : Outcome ⊥ Player → Player → Player
  or_else (ok p) old = p
  or_else _ old = old

  -- The players after the operation; one where it fails is left as it is.
  unfoldable pub next : (ℕ → ℕ → ℕ) → AdditiveOperation → (ℕ → Player) → ℕ → Player
  unfolding step
  next draw op players me = or_else (step draw op players me) (players me)

  -- The players after the operations; `draws k` are the values drawn for the operation at index `k`.
  unfoldable pub run : ℕ → (ℕ → ℕ → ℕ → ℕ) → List AdditiveOperation → (ℕ → Player) → ℕ → Player
  unfolding next
  run k draws [] players = players
  run k draws (op ∷ ops) players = run (suc k) draws ops (next (draws k) op players)

  -- Every operation succeeds at each of `n` players.
  abbrev pub Succeeds : ℕ → ℕ → (ℕ → ℕ → ℕ → ℕ) → List AdditiveOperation → (ℕ → Player) → Type 0
  Succeeds n k draws [] players = Unit
  Succeeds n k draws (op ∷ ops) players =
      ((i : ℕ) → i < n → step (draws k) op players i ≡ ok (next (draws k) op players i))
      × Succeeds n (suc k) draws ops (next (draws k) op players)

-- A plain value, and whether the players share it or all know it.
pub data Plain : Type 0 where
  shared public : ℕ → Plain

-- The sum over `n` players from `start` on.
unfoldable pub total : ℕ → ℕ → (ℕ → ℕ) → ℕ
total start zero f = 0
total start (suc n) f = f start + total (suc start) n f

module _ (m n : ℕ) (given : ℕ → WireId → Option ℕ) where
  abbrev pub sum_plain : Option Plain → Option Plain → Option Plain
  sum_plain (some (shared a)) (some (shared b)) = some (shared ((a + b) % m))
  sum_plain (some (public a)) (some (public b)) = some (public ((a + b) % m))
  sum_plain _ _ = none

  abbrev pub reveal_plain : Option Plain → Option Plain
  reveal_plain (some (shared a)) = some (public a)
  reveal_plain (some (public a)) = none
  reveal_plain none = none

  -- The value of an operation: an input is the party's, a random value the sum of what the players draw;
  -- no value is added to one of the other kind, and only shared values are revealed.
  unfoldable pub value_of : (ℕ → ℕ → ℕ) → AdditiveOperation → HashMap Plain → Option Plain
  unfolding total
  value_of draw (input party output) plain =
      if ltb party n then some (shared (or_zero (given party output) % m)) else none
  value_of draw (gen_random output) plain = some (shared (total 0 n (λ j. draw j j) % m))
  value_of draw (add left right output) plain = sum_plain (Map.get plain left) (Map.get plain right)
  value_of draw (reveal source output) plain = reveal_plain (Map.get plain source)

  abbrev pub store : HashMap Plain → WireId → Option Plain → Option Plain → Option (HashMap Plain)
  store plain output none (some v) = some (Map.put plain output v)
  store plain output none none = none
  store plain output (some old) v = none

  abbrev pub chain : {A B : Type 0} → Option A → (A → Option B) → Option B
  chain none f = none
  chain (some a) f = f a

  -- The values of all wires; none when a wire is used before it is there, or given twice.
  unfoldable pub evaluate :
      ℕ → (ℕ → ℕ → ℕ → ℕ) → List AdditiveOperation → HashMap Plain → Option (HashMap Plain)
  unfolding value_of
  evaluate k draws [] plain = some plain
  evaluate k draws (op ∷ ops) plain =
      chain
        (store plain (output_of op) (Map.get plain (output_of op)) (value_of (draws k) op plain))
        (evaluate (suc k) draws ops)
