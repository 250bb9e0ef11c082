-- ===== src/Circuit/New/Inputs.antt =====
-- The input wires of a party, as `get_input_operation_wire_ids_of_party` finds them in a circuit that
-- `new` made.
use mpc_core.Prelude.{
  ℕ, ◌≡◌, refl, ◌∙◌, sym, ap, subst, ◌↔◌, Bool, true, false, not, Option, none, some,
}
use mpc_core.Prelude.{List, [], ◌∷◌, ◌∈◌, All, concat, map, inl, inr, keep, ok}
use mpc_core.Prelude.{
  mem-append, mem-append_left, mem-append_right, mem-keep, mem-keep_of_mem, mem-All, ==→≡, ==_refl,
}
use mathlib.Core.Bool.{false≢true}
use mpc_core.Operation.{WireId, Gates, is_input}
use mpc_core.Circuit.{MpcCircuit, is_party, first_outputs, get_input_operation_wire_ids_of_party}
use mpc_core.Circuit.Sort.Trace.{split}
use mpc_core.Circuit.New.{new}
use mpc_core.Circuit.New.Outcomes.{Compiles}
use mpc_core.Circuit.New.Correct.{new-Compiles}

is_party→≡ : (o : Option ℕ) (p : ℕ) → is_party o p ≡ true → o ≡ some p
is_party→≡ none p h = cc
is_party→≡ (some q) p h = ap some (==→≡ q p h)

≡→is_party : (o : Option ℕ) (p : ℕ) → o ≡ some p → is_party o p ≡ true
≡→is_party o p h = rw h (==_refl p)

module _ (S : Gates) where
  open S use {Operation, get_input_party_id, outputs, is_operation_local}

  -- The invariant of the trait `Operation`: an input operation has exactly one output.
  abbrev pub HaveOneOutput : List Operation → Type 0
  HaveOneOutput ops =
      (op : Operation) → op ∈ ops → is_input S op ≡ true → (w : WireId) × (outputs op ≡ w ∷ [])

  -- `w` is the output of an input operation of party `p`.
  abbrev pub IsInputOf : List Operation → ℕ → WireId → Type 0
  IsInputOf ops p w =
      (op : Operation) × op ∈ ops × (get_input_party_id op ≡ some p) × (outputs op ≡ w ∷ [])

  is_input_of_party :
      (op : Operation) (p : ℕ) → get_input_party_id op ≡ some p → is_input S op ≡ true
  unfolding is_input
  is_input_of_party op p h = rw h refl

  first_outputs_lem :
      (ops : List Operation)
      → ((op : Operation) → op ∈ ops → (w : WireId) × (outputs op ≡ w ∷ []))
      → (ws : List WireId) × (first_outputs S ops ≡ ok ws)
        × ((w : WireId) → (w ∈ ws) ↔ ((op : Operation) × op ∈ ops × (outputs op ≡ w ∷ [])))
  unfolding first_outputs
  first_outputs_lem [] one = ([], refl, λ w. (λ m. absurd m, λ h. absurd h.1))
  first_outputs_lem (op ∷ ops) one =
      let (v, e) = one op (inl refl) in
      let (ws, returns, char) = first_outputs_lem ops (λ o m. one o (inr m)) in
      (
        v ∷ ws,
        rw (e, first_outputs, returns) refl,
        λ w. (
          elim [
            | inl is ↦ (op, inl refl, rw is e)
            | inr m ↦ let (o, k, f) = (char w).0 m in (o, inr k, f)
          ],
          λ h. pick v ws e char w h.0 h.1 h.2,
        ),
      )
    where
      pick :
          (v : WireId) (ws : List WireId)
          → outputs op ≡ v ∷ []
          → ((w : WireId) → (w ∈ ws) ↔ ((o : Operation) × o ∈ ops × (outputs o ≡ w ∷ [])))
          → (w : WireId) (o : Operation) → o ∈ op ∷ ops
          → outputs o ≡ w ∷ []
          → w ∈ v ∷ ws
      pick v ws e char w o (inl same) f = inl (let g = ap outputs same in cc)
      pick v ws e char w o (inr m) f = inr ((char w).1 (o, m, f))

  abbrev network_of : List (List Operation) → List Operation
  network_of waves = concat (map (λ r. r.network_operations) (map (split S) waves))

  mem-network_of :
      (waves : List (List Operation)) (op : Operation) → op ∈ network_of waves → op ∈ concat waves
  mem-network_of [] op m = absurd m
  mem-network_of (w ∷ ws) op m =
      elim (mem-append op (keep (λ o. not (is_operation_local o)) w) (network_of ws) m) [
        | inl l ↦
            mem-append_left op w (concat ws) (mem-keep (λ o. not (is_operation_local o)) w op l).0
        | inr r ↦ mem-append_right op w (concat ws) (mem-network_of ws op r)
      ]

  network_of-mem :
      (waves : List (List Operation)) (op : Operation)
      → op ∈ concat waves
      → is_operation_local op ≡ false
      → op ∈ network_of waves
  network_of-mem [] op m away = absurd m
  network_of-mem (w ∷ ws) op m away = elim (mem-append op w (concat ws) m) [
    | inl l ↦
        mem-append_left op (keep (λ o. not (is_operation_local o)) w) (network_of ws)
          (mem-keep_of_mem (λ o. not (is_operation_local o)) w op l (rw away refl))
    | inr r ↦
        mem-append_right op (keep (λ o. not (is_operation_local o)) w) (network_of ws)
          (network_of-mem ws op r away)
  ]

  not-mem_no_input :
      (waves : List (List Operation)) (op : Operation)
      → All (All (λ o. is_input S o ≡ false)) waves
      → op ∈ concat waves
      → is_input S op ≡ false
  not-mem_no_input [] op h m = absurd m
  not-mem_no_input (w ∷ ws) op h m = elim (mem-append op w (concat ws) m) [
    | inl l ↦ mem-All (λ o. is_input S o ≡ false) w op h.0 l
    | inr r ↦ not-mem_no_input ws op h.1 r
  ]

  module _ (ops : List Operation) (c : MpcCircuit Operation) (p : ℕ) (k : Compiles S ops c) where
    abbrev test : Operation → Bool
    test op = is_party (get_input_party_id op) p

    -- The input operations of the party, as the function finds them.
    abbrev found : List Operation
    found = keep test (network_of k.online_waves)

    found-within : (op : Operation) → op ∈ found → op ∈ ops × (get_input_party_id op ≡ some p)
    found-within op m =
        let n = mem-keep test (network_of k.online_waves) op m in
        (
          k.within op (
              mem-append_right op (concat k.offline_waves) (concat k.online_waves)
                (mem-network_of k.online_waves op n.0)),
          is_party→≡ (get_input_party_id op) p n.1,
        )

    mem-found : (op : Operation) → op ∈ ops → get_input_party_id op ≡ some p → op ∈ found
    mem-found op m own =
        let input = is_input_of_party op p own in
        elim (mem-append op (concat k.offline_waves) (concat k.online_waves) (k.covers op m)) [
          | inl off ↦
              absurd (false≢true (sym (not-mem_no_input k.offline_waves op k.no_input off) ∙ input))
          | inr on ↦
              mem-keep_of_mem test (network_of k.online_waves) op
                (network_of-mem k.online_waves op on (k.inputs_remote op m input))
                (≡→is_party (get_input_party_id op) p own)
        ]

  -- In a circuit made of operations whose inputs have one output each, the function does not panic,
  -- and returns the outputs of the party's input operations and no other wires.
  pub get_input_operation_wire_ids_lem :
      (ops : List Operation) (c : MpcCircuit Operation) (p : ℕ)
      → HaveOneOutput ops
      → new S ops ≡ ok c
      → (ws : List WireId) × (get_input_operation_wire_ids_of_party S c p ≡ ok ws)
        × ((w : WireId) → (w ∈ ws) ↔ IsInputOf ops p w)
  unfolding get_input_operation_wire_ids_of_party
  get_input_operation_wire_ids_lem ops c p one made =
      let k = new-Compiles S ops c made in
      let (ws, returns, char) = first_outputs_lem (found ops c p k) λ op m.
        let (given, own) = found-within ops c p k op m in
        one op given (is_input_of_party op p own) in
      (
        ws,
        subst
            (λ rs.
              first_outputs S (keep (test ops c p k) (concat (map (λ r. r.network_operations) rs)))
              ≡ ok ws)
            (sym k.online) returns,
        λ w. (
          λ m.
              let (op, at, out) = (char w).0 m in
              let (given, own) = found-within ops c p k op at in (op, given, own, out),
          λ h. (char w).1 (h.0, mem-found ops c p k h.0 h.1 h.2, h.3),
        ),
      )
