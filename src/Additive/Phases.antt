-- ===== src/Additive/Phases.antt =====
-- src/example/additive.rs: what the two phases of an operation do.
use mpc_core.Prelude.{ℕ, ◌+◌, ◌-◌, ◌%◌, ◌^◌, ◌≤◌, ◌<◌, ◌≡◌, refl, ◌∙◌, ap, List, [], ◌∷◌}
use mpc_core.Prelude.{
  map, ok, All, arith, ◌==◌, ==_refl, Bool-cases, true, false, length, some, none,
}
use mpc_core.Prelude.{inl, inr}
use mpc_core.Prelude.Map
use mpc_core.Operation.{WireId}
use native.Mathlib.Nat.{mod-lt}
use mathlib.Core.List.{Perm}
use mpc_core.Prelude.Sums.{sum, sum-perm}
use mpc_core.Network.{SendRequest, send_request, receive_request}
use mpc_core.Additive.{
  AdditiveOperation, input, gen_random, add, reveal, inputs, is_operation_local,
}
use mpc_core.Additive.{
  AdditiveContext, input_pending, gen_random_pending, add_pending, reveal_pending, PhaseOutput,
}
use mpc_core.Additive.{
  or_zero, phase_output, others, do_network_phase, do_finalize_phase, share_input,
}
use mpc_core.Additive.Sharing.{rem_ok, gen_range_ok, add_mod_ok, own_share_ok}
use mpc_core.Additive.Sharing.{send_shares_ok, total_of_ok, own-share-sum}

-- What a player sends when it shares an input.
abbrev pub sent : (ℕ → ℕ) → AdditiveContext → List (SendRequest ℕ)
sent draw context = map (λ i. send_request i (draw i)) (others context.my_id 0 context.n_players)

-- The input of a player, reduced.
abbrev pub input_of : ℕ → AdditiveContext → WireId → ℕ
input_of m context w = or_zero (Map.get context.user_inputs w) % m

module _ (m : ℕ) (pos : 0 < m) (small : m ≤ 2 ^ 63) where
  pub payloads_sent :
      (draw : ℕ → ℕ) (is : List ℕ)
      → map (λ r. r.payload) (map (λ i. send_request i (draw i)) is) ≡ map draw is
  payloads_sent draw [] = refl
  payloads_sent draw (i ∷ is) = ap (λ l. draw i ∷ l) (payloads_sent draw is)

  pub share_input_ok :
      (draw : ℕ → ℕ) (context : AdditiveContext) (w : WireId)
      → ((i : ℕ) → draw i < m)
      → (s : ℕ) × (share_input m draw context w
          ≡ ok (
            record context { user_inputs = Map.remove context.user_inputs w },
            phase_output (input_pending true (some s)) (sent draw context) [],
          ))
        × (s < m)
        × ((s + sum (map (λ r. r.payload) (sent draw context))) % m ≡ input_of m context w)
  unfolding share_input
  share_input_ok draw context w below =
      let is = others context.my_id 0 context.n_players in
      let v = input_of m context w in
      let total = (0 + sum (map draw is)) % m in
      let v_lt : v < m = mod-lt (or_zero (Map.get context.user_inputs w)) pos in
      let total_lt : total < m = mod-lt (0 + sum (map draw is)) pos in
      let value = rem_ok m pos (or_zero (Map.get context.user_inputs w)) in
      let shares = send_shares_ok m pos small draw below is 0 pos in
      let own = own_share_ok m pos small v total v_lt total_lt in
      let from_zero : 0 + sum (map draw is) ≡ sum (map draw is) = omega arith in
      (
        ((v + m) - total) % m,
        rw (value, shares, own) refl,
        mod-lt ((v + m) - total) pos,
        rw (payloads_sent draw is, from_zero) (own-share-sum m pos v (sum (map draw is)) v_lt),
      )

  -- The player whose input it is keeps a share and sends one to each other player; together they add
  -- up to the input modulo `M`, and the input is used up.
  pub share_input_lem :
      (draw : ℕ → ℕ) (context : AdditiveContext) (w : WireId) (ins : List ℕ)
      → ((i : ℕ) → draw i < m)
      → (s : ℕ) × (do_network_phase m draw context (input context.my_id w) ins
          ≡ ok (
            record context { user_inputs = Map.remove context.user_inputs w },
            phase_output (input_pending true (some s)) (sent draw context) [],
          ))
        × (s < m)
        × ((s + sum (map (λ r. r.payload) (sent draw context))) % m ≡ input_of m context w)
  unfolding do_network_phase
  share_input_lem draw context w ins below =
      let (s, runs, lt, total) = share_input_ok draw context w below in
      (s, rw (==_refl context.my_id) runs, lt, total)

  -- A player that has all shares of a value learns the value modulo `M`, in whatever order the other
  -- shares arrive.
  pub do_finalize_phase-reveal :
      (z : ℕ) (rs all : List ℕ)
      → z < m
      → All (λ r. r < m) rs
      → Perm all (z ∷ rs)
      → do_finalize_phase m (reveal_pending z) rs ≡ ok (sum all % m ∷ [])
  unfolding do_finalize_phase sum
  do_finalize_phase-reveal z rs all below_z below p =
      let total = total_of_ok m pos small rs z below_z below in rw (total, sum-perm p) refl

  -- Sharing an input and revealing it, for `M` from 1 to `2 ^ 63` and drawn values below `M`: every
  -- player, whichever share below `M` it holds and in whatever order it gets the others, all below
  -- `M`, ends with the input modulo `M`. The sharing player's own share comes out of its two phases.
  pub share-reveal :
      (draw : ℕ → ℕ) (context : AdditiveContext) (w : WireId) (ins : List ℕ)
      → ((i : ℕ) → draw i < m)
      → (s : ℕ) × (c : AdditiveContext) × (out : PhaseOutput) × (do_network_phase m draw context
            (input context.my_id w)
            ins
          ≡ ok (c, out))
        × (do_finalize_phase m out.pending [] ≡ ok (s ∷ []))
        × ((z : ℕ) (rs : List ℕ)
            → Perm (s ∷ map (λ r. r.payload) out.send_request) (z ∷ rs)
            → z < m
            → All (λ r. r < m) rs
            → do_finalize_phase m (reveal_pending z) rs ≡ ok (input_of m context w ∷ []))
  unfolding do_finalize_phase sum
  share-reveal draw context w ins below =
      let (s, runs, lt, total) = share_input_lem draw context w ins below in
      (
        s,
        _,
        _,
        runs,
        refl,
        λ z rs p hz hrs.
            do_finalize_phase-reveal z rs (s ∷ map (λ r. r.payload) (sent draw context)) hz hrs p
            ∙ ap (λ v. ok (v ∷ [])) total,
      )

  sent-All :
      (draw : ℕ → ℕ)
      → ((i : ℕ) → draw i < m)
      → (is : List ℕ) → All (λ r. r.payload < m) (map (λ i. send_request i (draw i)) is)
  sent-All draw below [] = tt
  sent-All draw below (i ∷ is) = (below i, sent-All draw below is)

  received_share :
      (rs : List ℕ)
      → length rs ≡ 1
      → All (λ v. v < m) rs
      → (w : ℕ) × (do_finalize_phase m (input_pending false none) rs ≡ ok (w ∷ [])) × (w < m)
  unfolding do_finalize_phase
  received_share [] n a = absurd (omega arith)
  received_share (r ∷ rs) n a = (r % m, rw (rem_ok m pos r) refl, mod-lt r pos)

  -- The contract of the two phases that the executor relies on, for `M` from 1 to `2 ^ 63` and drawn
  -- values below `M`. With as many values as the operation
  -- has inputs, and then as many received values as it asked for, all of them below `M`, neither phase
  -- fails; the result is one value below `M`, every value sent is below `M`, and a local operation
  -- sends and asks for nothing.
  pub phases_lem :
      (draw : ℕ → ℕ) (context : AdditiveContext) (op : AdditiveOperation) (ins : List ℕ)
      → ((i : ℕ) → draw i < m)
      → length ins ≡ length (inputs op)
      → All (λ v. v < m) ins
      → (c : AdditiveContext) × (out : PhaseOutput) × (do_network_phase m draw context op ins
          ≡ ok (c, out))
        × All (λ r. r.payload < m) out.send_request
        × (is_operation_local op ≡ true → (out.send_request ≡ []) × (out.receive_request ≡ []))
        × ((received : List ℕ)
            → length received ≡ length out.receive_request
            → All (λ v. v < m) received
            → (w : ℕ) × (do_finalize_phase m out.pending received ≡ ok (w ∷ [])) × (w < m))
  unfolding do_network_phase do_finalize_phase
  phases_lem draw context (input p w) ins below count small_ins =
      elim (Bool-cases (context.my_id == p)) [
        | inl own ↦
            (let (s, runs, lt, total) = share_input_ok draw context w below in
              (
                record context { user_inputs = Map.remove context.user_inputs w },
                phase_output (input_pending true (some s)) (sent draw context) [],
                rw own runs,
                sent-All draw below (others context.my_id 0 context.n_players),
                λ e. cc,
                λ rs n a. (s, refl, lt),
              ))
        | inr other ↦ (
          context,
          phase_output (input_pending false none) [] (receive_request p 1 ∷ []),
          rw other refl,
          tt,
          λ e. cc,
          λ rs n a. received_share rs n a,
        )
      ]
  phases_lem draw context (gen_random w) ins below count small_ins = (
    context,
    phase_output (gen_random_pending (draw context.my_id)) [] [],
    rw (gen_range_ok m pos (draw context.my_id)) refl,
    tt,
    λ e. (refl, refl),
    λ rs n a. (draw context.my_id, refl, below context.my_id),
  )
  phases_lem draw context (add l r w) [] below count small_ins = absurd (omega arith)
  phases_lem draw context (add l r w) (x ∷ []) below count small_ins = absurd (omega arith)
  phases_lem draw context (add l r w) (x ∷ y ∷ ins) below count small_ins = (
    context,
    phase_output (add_pending ((x + y) % m)) [] [],
    rw (add_mod_ok m pos small x y small_ins.0 small_ins.1.0) refl,
    tt,
    λ e. (refl, refl),
    λ rs n a. ((x + y) % m, refl, mod-lt (x + y) pos),
  )
  phases_lem draw context (reveal v w) [] below count small_ins = absurd (omega arith)
  phases_lem draw context (reveal v w) (z ∷ ins) below count small_ins =
      let players = others context.my_id 0 context.n_players in
      (
        context,
        _,
        refl,
        sent-All (λ i. z) (λ i. small_ins.0) players,
        λ e. cc,
        λ rs n a. (
          (z + sum rs) % m,
          rw (total_of_ok m pos small rs z small_ins.0 a) refl,
          mod-lt (z + sum rs) pos,
        ),
      )
