-- ===== src/Execution/Outputs.antt =====
-- The wires that lists of operations and rounds put out.
use mpc_core.Prelude.{◌+◌, ◌≤◌, ◌≡◌, refl, ◌∙◌, sym, ap, Bool, not, List, [], ◌∷◌, ◌++◌}
use mpc_core.Prelude.{
  map, count, keep, concat, arith, append_assoc, append-nil, count-append, Bool-cases, inl, inr,
}
use mpc_core.Prelude.Sums.{sum, sum-perm}
use mathlib.Core.List.{Perm}
use mathlib.Core.List.Perm
use mpc_core.Operation.{WireId, Gates}
use mpc_core.Circuit.{Round}
use mpc_core.Circuit.Graph.Producers.{all_outputs}
use mpc_core.Circuit.Sort.Trace.{split}
use mpc_core.Circuit.New.Ready.{after}

module _ (G : Gates) where
  pub all_outputs-append :
      (xs ys : List (G.Operation)) → all_outputs G (xs ++ ys) ≡ all_outputs G xs ++ all_outputs G ys
  all_outputs-append [] ys = refl
  all_outputs-append (x ∷ xs) ys =
      ap (λ l. G.outputs x ++ l) (all_outputs-append xs ys)
      ∙ sym (append_assoc (G.outputs x) (all_outputs G xs) (all_outputs G ys))

  pub all_outputs-snoc :
      (xs : List (G.Operation)) (x : G.Operation)
      → all_outputs G (xs ++ x ∷ []) ≡ all_outputs G xs ++ G.outputs x
  all_outputs-snoc xs x =
      all_outputs-append xs (x ∷ []) ∙ ap (λ l. all_outputs G xs ++ l) (append-nil (G.outputs x))

  pub all_outputs-count :
      (xs ys : List (G.Operation)) (w : WireId)
      → count w (all_outputs G (xs ++ ys)) ≡ count w (all_outputs G xs) + count w (all_outputs G ys)
  all_outputs-count xs ys w =
      ap (count w) (all_outputs-append xs ys) ∙ count-append w (all_outputs G xs) (all_outputs G ys)

  pub after_count :
      (done : List (G.Operation)) (rounds : List (Round (G.Operation))) (w : WireId)
      → count w (all_outputs G done) ≤ count w (all_outputs G (after G done rounds))
  after_count done [] w = omega arith
  after_count done (r ∷ rounds) w = omega (
    arith,
    after_count ((done ++ r.local_operations) ++ r.network_operations) rounds w,
    all_outputs-count (done ++ r.local_operations) r.network_operations w,
    all_outputs-count done r.local_operations w,
  )

  -- A wave's local and network operations have its outputs between them.
  count-keep :
      (p : G.Operation → Bool) (xs : List (G.Operation)) (w : WireId)
      → count w (all_outputs G (keep p xs)) + count w (all_outputs G (keep (λ x. not (p x)) xs))
        ≡ count w (all_outputs G xs)
  count-keep p [] w = omega arith
  count-keep p (x ∷ xs) w =
      let rest = count-keep p xs w in
      let all = count-append w (G.outputs x) (all_outputs G xs) in
      elim (Bool-cases (p x)) [
        | inl e ↦
            rw e
              (omega (arith, rest, all, count-append w (G.outputs x) (all_outputs G (keep p xs))))
        | inr e ↦ rw e (
            omega (
              arith,
              rest,
              all,
              count-append w (G.outputs x) (all_outputs G (keep (λ y. not (p y)) xs)),
            ))
      ]

  pub after-split_count :
      (done : List (G.Operation)) (ws : List (List (G.Operation))) (w : WireId)
      → count w (all_outputs G (after G done (map (split G) ws)))
        ≡ count w (all_outputs G done) + count w (all_outputs G (concat ws))
  after-split_count done [] w = omega arith
  after-split_count done (x ∷ ws) w =
      let local = keep G.is_operation_local x in
      let network = keep (λ op. not (G.is_operation_local op)) x in
      omega (
        arith,
        after-split_count ((done ++ local) ++ network) ws w,
        all_outputs-count (done ++ local) network w,
        all_outputs-count done local w,
        count-keep G.is_operation_local x w,
        all_outputs-count x (concat ws) w,
      )

  count-as_sum :
      (xs : List (G.Operation)) (w : WireId)
      → count w (all_outputs G xs) ≡ sum (map (λ op. count w (G.outputs op)) xs)
  unfolding sum
  count-as_sum [] w = refl
  count-as_sum (x ∷ xs) w =
      omega (arith, count-as_sum xs w, count-append w (G.outputs x) (all_outputs G xs))

  -- The outputs do not depend on the order of the operations.
  pub count-perm :
      (xs ys : List (G.Operation)) (w : WireId)
      → Perm xs ys
      → count w (all_outputs G xs) ≡ count w (all_outputs G ys)
  count-perm xs ys w p =
      count-as_sum xs w
      ∙ sum-perm (Perm.map (λ op. count w (G.outputs op)) p)
      ∙ sym (count-as_sum ys w)
