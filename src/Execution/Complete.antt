-- ===== src/Execution/Complete.antt =====
-- src/mpc/execution.rs: rounds that can be executed run, on a scheme that keeps its contract and an
-- honest network, without a panic, and give every wire a value.
use mpc_core.Prelude.{ℕ, ◌≤◌, ◌≡◌, sym, ap, subst, true}
use mpc_core.Prelude.{List, [], ◌∷◌, ◌++◌, count, All, arith}
use mpc_core.Operation.{WireId}
use mpc_core.Network.{Network}
use mpc_core.Scheme.{MpcScheme}
use mpc_core.Circuit.{Round}
use mpc_core.Circuit.Graph.Producers.{all_outputs}
use mpc_core.Circuit.New.Ready.{IsExecutable, after}
use mpc_core.Execution.{Machine}
use mpc_core.Execution.Rounds.{do_network_operations, do_rounds}
use mpc_core.Execution.Contract.{Safe, >>=-Safe, IsContract, IsHonest}
use mpc_core.Execution.Wires.{Written}
use mpc_core.Execution.Operations.{
  do_local_operations-Safe, do_network_operations-Safe, assume_init-Safe, lift_ok,
}
use mpc_core.Execution.Outputs.{all_outputs-append, all_outputs-count, after_count}

module _ {Net Hash : Type 0} (S : MpcScheme Net) (N : Network Net Hash (S.NetworkElement))
    (IsValue : S.Wire → Type 0) (IsElement : S.NetworkElement → Type 0)
    (K : IsContract S IsValue IsElement) (H : IsHonest S N IsElement) where
  open S use {gates}

  -- The operations of a round that are run locally are local.
  abbrev pub AreLocal : List (Round gates.Operation) → Type 0
  AreLocal rounds =
      All (λ r. All (λ op. gates.is_operation_local op ≡ true) r.local_operations) rounds

  -- The rounds of a phase, on a machine where the wires of the operations `done` have values and no
  -- other wires: they end, and after a success the wires of the rounds' operations have values too.
  pub do_rounds-Safe :
      (done : List gates.Operation) (rounds : List (Round gates.Operation)) (totals : ℕ × ℕ)
      (s : Machine S)
      → Written S IsValue (all_outputs gates done) s
      → IsExecutable gates done rounds
      → AreLocal rounds
      → ((w : WireId) → count w (all_outputs gates (after gates done rounds)) ≤ 1)
      → Safe
          (λ _ t. Written S IsValue (all_outputs gates (after gates done rounds)) t)
          (do_rounds S N rounds totals s)
  unfolding do_rounds
  do_rounds-Safe done [] totals s v x local once = lift_ok S IsValue IsElement K _ totals s v
  do_rounds-Safe done (r ∷ rounds) totals s v x local once =
      let mid = done ++ r.local_operations in
      let next = mid ++ r.network_operations in
      let grows = λ (w : WireId). after_count gates next rounds w in
      let split = λ (w : WireId). all_outputs-count gates mid r.network_operations w in
      >>=-Safe _ _ _ _ s (assume_init-Safe S IsValue IsElement K (all_outputs gates done) s v)
        λ _ t p.
          >>=-Safe _ _ _ _ t
            (do_local_operations-Safe S IsValue IsElement K done r.local_operations t p x.0 local.0
              λ w. omega (arith, once w, grows w, split w))
            λ _ t p.
              >>=-Safe (λ _ u. Written S IsValue (all_outputs gates next) u) _ _ _ t
                (subst
                  (λ l.
                    Safe (λ _ u. Written S IsValue l u)
                      (do_network_operations S N r.network_operations t))
                  (sym (all_outputs-append gates mid r.network_operations))
                  (do_network_operations-Safe S IsValue IsElement K N H (all_outputs gates mid)
                    r.network_operations t p x.1
                    λ w. omega (
                      arith,
                      once w,
                      grows w,
                      ap (count w) (all_outputs-append gates mid r.network_operations),
                    )))
                λ lens t p. do_rounds-Safe next rounds _ t p x.2 local.1 once
