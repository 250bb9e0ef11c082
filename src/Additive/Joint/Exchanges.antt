-- ===== src/Additive/Joint/Exchanges.antt =====
-- src/example/additive.rs: the operations with messages, an input and a reveal, run by all
-- players, beside their plain values.
use mpc_core.Prelude.{
  ℕ, ◌+◌, ◌%◌, ◌^◌, ◌≤◌, ◌<◌, ◌≡◌, refl, ◌∙◌, sym, ap, subst, Option, none, some, List, [], ◌∷◌,
  map,
}
use mpc_core.Prelude.{
  true, false, arith, ok, All, ◌∈◌, ◌==◌, ==_refl, ==→≡, ==→≢, ≢→==, Bool-cases, inl, inr,
  if◌then◌else◌,
}
use native.Mathlib.Nat.{mod-lt, mod-eq_of_lt}
use mpc_core.Prelude.Map
use mpc_core.Prelude.Map.{HashMap, get-remove}
use mpc_core.Prelude.Sums.{sum}
use mpc_core.Operation.{WireId}
use mpc_core.Network.{send_request, receive_request}
use mpc_core.Additive.{
  share_input, input, reveal, AdditiveContext, PhaseOutput, do_network_phase, do_finalize_phase,
}
use mpc_core.Additive.{phase_output, input_pending, reveal_pending, others, or_zero}
use mpc_core.Additive.Sharing.{mem-others, rem_ok, total_of_ok}
use mpc_core.Additive.Phases.{share_input_ok, payloads_sent, sent, input_of}
use mpc_core.Execution.Sequence.{read}
use mpc_core.Additive.Joint.{
  Player, Plain, shared, public, total, begin, step, delivered, sends_of, payloads, reveal_plain,
}
use mpc_core.Additive.Joint.Totals.{total-others}
use mpc_core.Additive.Joint.Messages.{payloads-others, delivered-others}
use mpc_core.Additive.Joint.Agree.{at_else, Agree, Kept, Kept-refl, Advance, step_ok}

All-map_of_mem :
    (P : ℕ → Type 0) (f : ℕ → ℕ) (xs : List ℕ) → ((x : ℕ) → x ∈ xs → P (f x)) → All P (map f xs)
All-map_of_mem P f [] h = tt
All-map_of_mem P f (x ∷ xs) h = (h x (inl refl), All-map_of_mem P f xs (λ y m. h y (inr m)))

sum-map_congr :
    (f g : ℕ → ℕ) (xs : List ℕ) → ((x : ℕ) → x ∈ xs → f x ≡ g x) → sum (map f xs) ≡ sum (map g xs)
unfolding sum
sum-map_congr f g [] h = refl
sum-map_congr f g (x ∷ xs) h =
    omega (arith, h x (inl refl), sum-map_congr f g xs (λ y m. h y (inr m)))

module _ (m n : ℕ) (given : ℕ → WireId → Option ℕ) (pos : 0 < m) (small : m ≤ 2 ^ 63)
    (draw : ℕ → ℕ → ℕ) (below : (j i : ℕ) → draw j i < m) (players : ℕ → Player)
    (plain : HashMap Plain) (a : Agree m n given players plain) where
  others_of :
      (i : ℕ)
      → i < n
      → others (players i).context.my_id 0 (players i).context.n_players ≡ others i 0 n
  others_of i lt =
      let (me, size) = a.ids i lt in
      ap (λ k. others k 0 (players i).context.n_players) me ∙ ap (others i 0) size

  -- The network phase of a reveal at a player with the share `x`.
  abbrev revealing : ℕ → ℕ → PhaseOutput
  revealing i x =
      phase_output (reveal_pending x) (map (λ k. send_request k x) (others i 0 n))
        (map (λ k. receive_request k 1) (others i 0 n))

  begin_reveal :
      (src w : WireId) (i x : ℕ)
      → i < n
      → Map.get (players i).wires src ≡ some x
      → begin m (draw i) (reveal src w) (players i) ≡ ok ((players i).context, revealing i x)
  unfolding begin read do_network_phase
  begin_reveal src w i x lt here = rw here (
      ap
        (λ is. ok (
          (players i).context,
          phase_output (reveal_pending x) (map (λ k. send_request k x) is)
              (map (λ k. receive_request k 1) is),
        ))
        (others_of i lt))

  reveal_shared :
      (src w : WireId) (x : ℕ)
      → Map.get plain w ≡ none
      → Map.get plain src ≡ some (shared x)
      → Advance m n given draw (reveal src w) players (public x)
  unfolding do_finalize_phase
  reveal_shared src w x new from =
      let (z, zs, sums) = a.holds src (shared x) from in
      let begun = λ (k : ℕ) (lt : k < n). begin_reveal src w k (z k) lt (zs k lt).0 in
      let sent_by = λ (k : ℕ). sends_of (begin m (draw k) (reveal src w) (players k)) in
      record {
        context = λ i. (players i).context;
        value = λ i. x;
        ran = λ i lt.
            let arrived = delivered-others sent_by i n z lt (λ k b. ap sends_of (begun k b)) in
            let small_others =
              All-map_of_mem (λ r. r < m) z (others i 0 n)
                (λ k k_in. (zs k (omega (arith, (mem-others i 0 n k k_in).2))).1) in
            let adds =
              total_of_ok m pos small (map z (others i 0 n)) (z i) (zs i lt).1 small_others in
            let is : (z i + sum (map z (others i 0 n))) % m ≡ x =
              ap (λ t. t % m) (sym (total-others i 0 n z (omega arith) (omega arith))) ∙ sums in
            step_ok m n given draw (reveal src w) players i (players i).context (revealing i (z i))
              x (a.fresh w new i lt) (begun i lt) (rw (arrived, adds, is) refl);
        kept = λ i lt. Kept-refl m n given w (players i).context;
        right = (λ i lt. refl, subst (λ t. t < m) sums (mod-lt (total 0 n z) pos));
      }

  pub reveal-Advance :
      (src w : WireId) (v : Plain) (x : Option Plain)
      → Map.get plain w ≡ none
      → Map.get plain src ≡ x
      → reveal_plain m n given x ≡ some v
      → Advance m n given draw (reveal src w) players v
  reveal-Advance src w v (some (shared x)) new from e =
      let same : public x ≡ v = cc in
      subst (Advance m n given draw (reveal src w) players) same (reveal_shared src w x new from)
  reveal-Advance src w v (some (public x)) new from e = cc
  reveal-Advance src w v none new from e = cc

  module _ (p w : ℕ) (party : p < n) (new : Map.get plain w ≡ none) where
    abbrev context_of : AdditiveContext
    context_of = (players p).context

    begin_input_own :
        (s : ℕ)
        → share_input m (draw p) context_of w
          ≡ ok (
            record context_of { user_inputs = Map.remove context_of.user_inputs w },
            phase_output (input_pending true (some s)) (sent (draw p) context_of) [],
          )
        → begin m (draw p) (input p w) (players p)
          ≡ ok (
            record context_of { user_inputs = Map.remove context_of.user_inputs w },
            phase_output (input_pending true (some s)) (sent (draw p) context_of) [],
          )
    unfolding begin read do_network_phase
    begin_input_own s runs =
        let own : (context_of.my_id == p) ≡ true = ap (λ k. k == p) (a.ids p party).0 ∙ ==_refl p in
        rw own runs

    begin_input_other :
        (i : ℕ)
        → i < n
        → (i == p) ≡ false
        → begin m (draw i) (input p w) (players i)
          ≡ ok (
            (players i).context,
            phase_output (input_pending false none) [] (receive_request p 1 ∷ []),
          )
    unfolding begin read do_network_phase
    begin_input_other i lt ne =
        let other : ((players i).context.my_id == p) ≡ false =
          ap (λ k. k == p) (a.ids i lt).0 ∙ ne in
        rw other refl

    used : AdditiveContext
    used = record context_of { user_inputs = Map.remove context_of.user_inputs w }

    context_after : ℕ → AdditiveContext
    context_after i = if i == p then used else (players i).context

    share : ℕ → ℕ → ℕ
    share s i = if i == p then s else draw p i

    -- The player whose input it is keeps its share.
    own_step :
        (s : ℕ)
        → share_input m (draw p) context_of w
          ≡ ok (used, phase_output (input_pending true (some s)) (sent (draw p) context_of) [])
        → step m draw (input p w) players p
          ≡ ok (record { context = used; wires = Map.put (players p).wires w s })
    unfolding do_finalize_phase used
    own_step s runs =
        step_ok m n given draw (input p w) players p used
          (phase_output (input_pending true (some s)) (sent (draw p) context_of) []) s
          (a.fresh w new p party) (begin_input_own s runs) refl

    -- Every other player gets the value that was drawn for it.
    other_step :
        (s i : ℕ)
        → share_input m (draw p) context_of w
          ≡ ok (used, phase_output (input_pending true (some s)) (sent (draw p) context_of) [])
        → i < n
        → (i == p) ≡ false
        → step m draw (input p w) players i
          ≡ ok (record {
            context = (players i).context;
            wires = Map.put (players i).wires w (draw p i);
          })
    unfolding do_finalize_phase delivered used
    other_step s i runs lt ne =
        let arrives : payloads i (sent (draw p) context_of) ≡ draw p i ∷ [] =
          ap (λ is. payloads i (map (λ k. send_request k (draw p k)) is)) (others_of p party)
          ∙ payloads-others p i 0 n (draw p) (omega arith) (omega arith) (==→≢ i p ne) in
        let begun = begin_input_own s runs in
        let value = rem_ok m pos (draw p i) ∙ ap ok (mod-eq_of_lt (below p i)) in
        step_ok m n given draw (input p w) players i (players i).context
          (phase_output (input_pending false none) [] (receive_request p 1 ∷ [])) (draw p i)
          (a.fresh w new i lt) (begin_input_other i lt ne) (rw (begun, arrives, value) refl)

    input_step :
        (s i : ℕ)
        → share_input m (draw p) context_of w
          ≡ ok (used, phase_output (input_pending true (some s)) (sent (draw p) context_of) [])
        → i < n
        → step m draw (input p w) players i
          ≡ ok (record {
            context = context_after i;
            wires = Map.put (players i).wires w (share s i);
          })
    unfolding context_after share
    input_step s i runs lt = elim (Bool-cases (i == p)) [
      | inl e ↦
          let is : p ≡ i = sym (==→≡ i p e) in
          rw e (
            subst
              (λ j.
                step m draw (input p w) players j
                ≡ ok (record { context = used; wires = Map.put (players j).wires w s }))
              is (own_step s runs))
      | inr e ↦ rw e (other_step s i runs lt e)
    ]

    input-Kept : (i : ℕ) → i < n → Kept m n given w (players i).context (context_after i)
    unfolding context_after used
    input-Kept i lt = elim (Bool-cases (i == p)) [
      | inl e ↦
          let is : p ≡ i = sym (==→≡ i p e) in
          rw e (
            subst (λ j. Kept m n given w (players j).context used) is
              (record {
                my_id = refl;
                n_players = refl;
                others = λ u ne.
                    get-remove context_of.user_inputs w u
                    ∙ at_else (≢→== w u ne) none (Map.get context_of.user_inputs u);
              }))
      | inr e ↦ rw e (Kept-refl m n given w (players i).context)
    ]

    shares_sum :
        (s : ℕ)
        → (s + sum (map (λ r. r.payload) (sent (draw p) context_of))) % m ≡ input_of m context_of w
        → total 0 n (share s) % m ≡ or_zero (given p w) % m
    unfolding share
    shares_sum s sums =
        let at_p : share s p ≡ s = rw (==_refl p) refl in
        let rest : sum (map (share s) (others p 0 n)) ≡ sum (map (draw p) (others p 0 n)) =
          sum-map_congr (share s) (draw p) (others p 0 n)
            (λ i i_in. rw (≢→== i p (mem-others p 0 n i i_in).0) refl) in
        let adds : total 0 n (share s) ≡ s + sum (map (λ r. r.payload) (sent (draw p) context_of)) =
          total-others p 0 n (share s) (omega arith) (omega arith)
          ∙ ap (λ t. share s p + t) rest
          ∙ ap (λ t. t + sum (map (draw p) (others p 0 n))) at_p
          ∙ ap (λ l. s + sum l) (sym (payloads_sent m pos small (draw p) (others p 0 n)))
          ∙ ap (λ is. s + sum (map (λ r. r.payload) (map (λ k. send_request k (draw p k)) is)))
              (sym (others_of p party)) in
        ap (λ t. t % m) adds ∙ sums ∙ ap (λ v. or_zero v % m) (a.inputs w new p party)

    pub input-Advance :
        Advance m n given draw (input p w) players (shared (or_zero (given p w) % m))
    unfolding used share
    input-Advance =
        let (s, runs, lt, sums) = share_input_ok m pos small (draw p) context_of w (below p) in
        record {
          context = context_after;
          value = share s;
          ran = λ i i_lt. input_step s i runs i_lt;
          kept = input-Kept;
          right = (
            share s,
            λ i i_lt.
                (refl, elim (Bool-cases (i == p)) [ inl e ↦ rw e lt | inr e ↦ rw e (below p i) ]),
            shares_sum s sums,
          );
        }
