-- ===== src/Circuit/Sort/Trace.antt =====
-- The operations that a run of the sort takes, wave by wave, and the rounds that it makes of them.
use mpc_core.Prelude.{ℕ, ◌≡◌, ◌∙◌, sym, ap, Bool, false, not, ◌&&◌, List, [], ◌∷◌, ◌++◌}
use mpc_core.Prelude.{append_assoc, append-nil, keep, map, length, All, Bool-cases, inl, inr, arith}
use mpc_core.Operation.{Gates, is_input}
use mpc_core.Circuit.{Round}
use mpc_core.Circuit.Sort.{State, schedule, begin_round, end_round}
use mpc_core.Circuit.Sort.Steps.{deferred, taken}
use mpc_core.Circuit.Sort.Loops.{Steps, Rounds}

module _ (S : Gates) where
  open S use {Operation, is_operation_local}

  -- The round that holds the operations of a wave.
  abbrev pub split : List Operation → Round Operation
  split wave = record {
    local_operations = keep is_operation_local wave;
    network_operations = keep (λ op. not (is_operation_local op)) wave;
  }

  -- What the steps add to a list of the round: the taken operations that pass its test.
  abbrev Adds : (Operation → Bool) → List Operation → List Operation → List Operation → Type 0
  Adds p old new ops = new ≡ old ++ keep p ops

  -- With `defer` no input operation is among them.
  abbrev pub AreTaken : Bool → List Operation → Type 0
  AreTaken defer = All (λ op. (defer && is_input S op) ≡ false)

  module _ {adj : List (List ℕ)} {n : ℕ} {len_adj : length adj ≡ n} {defer : Bool} where
    -- The operations that the steps take, in order.
    unfoldable pub taken_ops :
        {s t : State Operation} → Steps S adj n len_adj defer s t → List Operation
    taken_ops (Steps.last _ _) = []
    taken_ops (Steps.more _ _ (deferred _ _ _) st) = taken_ops st
    taken_ops (Steps.more _ _ (taken h _ _) st) = h.op ∷ taken_ops st

    -- The waves of a run of the outer loop.
    unfoldable pub waves :
        {p q : State Operation × List (Round Operation)}
        → Rounds S adj n len_adj defer p q
        → List (List Operation)
    waves (Rounds.last _ _) = []
    waves (Rounds.more _ _ steps _ rest) = taken_ops steps ∷ waves rest

    local_lists :
        {s t : State Operation} (st : Steps S adj n len_adj defer s t)
        → Adds is_operation_local s.local_operations t.local_operations (taken_ops st)
          × Adds
              (λ op. not (is_operation_local op))
              s.network_operations
              t.network_operations
              (taken_ops st)
    unfolding taken_ops schedule
    local_lists {s} (Steps.last e same) = (
      ap (λ r. r.local_operations) same ∙ sym (append-nil s.local_operations),
      ap (λ r. r.network_operations) same ∙ sym (append-nil s.network_operations),
    )
    local_lists (Steps.more e v (deferred h later same) st) =
        let (l, m) = local_lists st in
        (
          l ∙ ap (λ r. r.local_operations ++ keep is_operation_local (taken_ops st)) same,
          m
              ∙ ap
                  (λ r.
                    r.network_operations ++ keep (λ op. not (is_operation_local op)) (taken_ops st))
                  same,
        )
    local_lists {s} (Steps.more e v (taken h now r) st) =
        let (l, m) = local_lists st in
        elim (Bool-cases (is_operation_local h.op)) [
          | inl is ↦ (
            l
                ∙ ground (
                  arith,
                  r.local_operations,
                  append_assoc s.local_operations (h.op ∷ [])
                      (keep is_operation_local (taken_ops st)),
                ),
            m ∙ ground (arith, r.network_operations),
          )
          | inr is ↦ (
            l ∙ ground (arith, r.local_operations),
            m
                ∙ ground (
                  arith,
                  r.network_operations,
                  append_assoc s.network_operations (h.op ∷ [])
                      (keep (λ (op : Operation). not (is_operation_local op)) (taken_ops st)),
                ),
          )
        ]

    -- The rounds pushed by a run are its waves, split.
    pub Rounds-eq-waves :
        {p q : State Operation × List (Round Operation)} (r : Rounds S adj n len_adj defer p q)
        → q.1 ≡ p.1 ++ map split (waves r)
    unfolding waves begin_round end_round
    Rounds-eq-waves (Rounds.last {rounds = rounds} e same) =
        ap (λ x. x.1) same ∙ sym (append-nil rounds)
    Rounds-eq-waves (Rounds.more {t = t} {rounds = rounds} v k steps e rest) =
        let (l, m) = local_lists steps in
        Rounds-eq-waves rest
        ∙ append_assoc rounds _ (map split (waves rest))
        ∙ ap (λ x. rounds ++ x ∷ map split (waves rest))
            (λ i. record { local_operations = l i; network_operations = m i })

    taken_ops-AreTaken :
        {s t : State Operation} (st : Steps S adj n len_adj defer s t)
        → AreTaken defer (taken_ops st)
    unfolding taken_ops
    taken_ops-AreTaken (Steps.last _ _) = tt
    taken_ops-AreTaken (Steps.more _ _ (deferred _ _ _) st) = taken_ops-AreTaken st
    taken_ops-AreTaken (Steps.more _ _ (taken h now _) st) = (now, taken_ops-AreTaken st)

    pub waves-AreTaken :
        {p q : State Operation × List (Round Operation)} (r : Rounds S adj n len_adj defer p q)
        → All (AreTaken defer) (waves r)
    unfolding waves
    waves-AreTaken (Rounds.last _ _) = tt
    waves-AreTaken (Rounds.more _ _ steps _ rest) = (taken_ops-AreTaken steps, waves-AreTaken rest)

  -- Without `defer` nothing is put off.
  module _ {adj : List (List ℕ)} {n : ℕ} {len_adj : length adj ≡ n} where
    Steps-online :
        {s t : State Operation} → Steps S adj n len_adj false s t → t.online_wave ≡ s.online_wave
    unfolding schedule
    Steps-online (Steps.last e same) = ap (λ r. r.online_wave) same
    Steps-online (Steps.more e v (deferred h later same) st) = cc
    Steps-online (Steps.more e v (taken h now r) st) =
        Steps-online st ∙ r.online_wave ∙ ground arith

    pub Rounds-online :
        {p q : State Operation × List (Round Operation)}
        → Rounds S adj n len_adj false p q
        → q.0.online_wave ≡ p.0.online_wave
    unfolding begin_round end_round
    Rounds-online (Rounds.last e same) = ap (λ r. r.0.online_wave) same
    Rounds-online (Rounds.more v empty steps e rest) = Rounds-online rest ∙ Steps-online steps
