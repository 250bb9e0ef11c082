-- ===== src/Circuit/New/Ready.antt =====
-- When every operation has producers of one kind only, local or network, the rounds can be executed
-- as they stand: first the local operations in order, then the network operations.
use mpc_core.Prelude.{ℕ, ◌≡◌, refl, ◌∙◌, sym, ap, subst, Bool, true, not}
use mpc_core.Prelude.{
  none, some, List, [], ◌∷◌, ◌++◌, get_elem?, set, length, length-set, get_or-eq_of_get_elem?,
  arith, append_assoc, append-nil,
}
use mpc_core.Prelude.{◌∈◌, All, concat, map, ◌⊎◌, inl, inr, Bool-cases, keep, if◌then◌else◌}
use mpc_core.Prelude.{
  mem-append, mem-append_left, mem-append_right, mem-snoc, mem-of_get_elem?, count-pos_of_mem,
  mem-keep_of_mem,
}
use mathlib.Core.Option.{some-injective}
use mpc_core.Operation.{WireId, Gates}
use mpc_core.Circuit.{Round}
use mpc_core.Circuit.Graph.{Graph}
use mpc_core.Circuit.Graph.Producers.{Makes, all_outputs}
use mpc_core.Circuit.Graph.Edges.{HasEdge}
use mpc_core.Circuit.Graph.Correct.{Built}
use mpc_core.Circuit.Sort.{State, schedule, begin_round, end_round}
use mpc_core.Circuit.Sort.Pending.{is_ready-pos}
use mpc_core.Circuit.Sort.Invariant.{Inv, Released}
use mpc_core.Circuit.Sort.Steps.{deferred, taken, Head}
use mpc_core.Circuit.Sort.Loops.{Steps, Rounds}
use mpc_core.Circuit.Sort.Trace.{split, taken_ops, waves}
use mpc_core.Circuit.New.Order.{
  IsOrdered, Knows, Knows-same_ops, Knows-take, ops_schedule, mem-all_outputs, producer_taken,
  steps_order, Run, RoundsRun, Makes-of_mem,
}

module _ (S : Gates) where
  open S use {Operation, inputs, outputs, is_operation_local}

  -- The input wires of `op` are outputs of `ops`.
  abbrev pub InputsFrom : List Operation → Operation → Type 0
  InputsFrom ops op = (w : WireId) → w ∈ inputs op → w ∈ all_outputs S ops

  -- The rounds can be executed when the wires of `done` are there: a local operation finds its inputs
  -- among them and the outputs of the local operations before it, and a network operation among them
  -- and the outputs of the round's local operations.
  abbrev pub IsExecutable : List Operation → List (Round Operation) → Type 0
  IsExecutable done [] = Unit
  IsExecutable done (r ∷ rs) =
      IsOrdered S done r.local_operations
      × All (InputsFrom (done ++ r.local_operations)) r.network_operations
      × IsExecutable ((done ++ r.local_operations) ++ r.network_operations) rs

  -- The operations whose wires are there after the rounds.
  abbrev pub after : List Operation → List (Round Operation) → List Operation
  after done [] = done
  after done (r ∷ rs) = after ((done ++ r.local_operations) ++ r.network_operations) rs

  pub IsExecutable-append :
      (done : List Operation) (xs ys : List (Round Operation))
      → IsExecutable done xs
      → IsExecutable (after done xs) ys
      → IsExecutable done (xs ++ ys)
  IsExecutable-append done [] ys h k = k
  IsExecutable-append done (r ∷ xs) ys h k = (
    h.0,
    h.1,
    IsExecutable-append ((done ++ r.local_operations) ++ r.network_operations) xs ys h.2 k,
  )

  -- The producers of an operation are all local, or none is.
  abbrev pub IsUnmixed : List Operation → Type 0
  IsUnmixed ops =
      (c p q : Operation) (v w : WireId)
      → c ∈ ops
      → p ∈ ops
      → q ∈ ops
      → v ∈ inputs c
      → w ∈ inputs c
      → v ∈ outputs p
      → w ∈ outputs q
      → is_operation_local p ≡ is_operation_local q

  abbrev pub Covers : List Operation → List Operation → Type 0
  Covers xs ys = (op : Operation) → op ∈ xs → op ∈ ys

  InputsFrom-mono :
      (xs ys : List Operation) (op : Operation) → Covers xs ys → InputsFrom xs op → InputsFrom ys op
  InputsFrom-mono xs ys op sub h w m =
      let (k, made) = Makes-of_mem S w xs (h w m) in
      mem-all_outputs S w made.op ys (sub made.op (mem-of_get_elem? xs k made.op made.at)) made.out

  -- What is there for the operations of a wave: `done`, and the local operations of the wave.
  abbrev grow : List Operation → Operation → List Operation
  grow done op = if is_operation_local op then done ++ op ∷ [] else done

  abbrev IsPrompt : List Operation → List Operation → Type 0
  IsPrompt done [] = Unit
  IsPrompt done (op ∷ ops) = InputsFrom done op × IsPrompt (grow done op) ops

  IsPrompt-local :
      (done ops : List Operation)
      → IsPrompt done ops
      → IsOrdered S done (keep is_operation_local ops)
  IsPrompt-local done [] h = tt
  IsPrompt-local done (op ∷ ops) h = elim (Bool-cases (is_operation_local op)) [
    | inl e ↦
        let t : IsPrompt (done ++ op ∷ []) ops = rw e at h.1 in
        rw e (h.0, IsPrompt-local (done ++ op ∷ []) ops t)
    | inr e ↦ let t : IsPrompt done ops = rw e at h.1 in rw e (IsPrompt-local done ops t)
  ]

  IsPrompt-network :
      (done ops : List Operation)
      → IsPrompt done ops
      → All
          (InputsFrom (done ++ keep is_operation_local ops))
          (keep (λ op. not (is_operation_local op)) ops)
  IsPrompt-network done [] h = tt
  IsPrompt-network done (op ∷ ops) h = elim (Bool-cases (is_operation_local op)) [
    | inl e ↦
        let t : IsPrompt (done ++ op ∷ []) ops = rw e at h.1 in
        rw (e, ← append_assoc done (op ∷ []) (keep is_operation_local ops))
          (IsPrompt-network (done ++ op ∷ []) ops t)
    | inr e ↦
        let t : IsPrompt done ops = rw e at h.1 in
        rw e (
          InputsFrom-mono done (done ++ keep is_operation_local ops) op
              (λ o m. mem-append_left o done (keep is_operation_local ops) m) h.0,
          IsPrompt-network done ops t,
        )
  ]

module _ (S : Gates) (raw : List S.Operation) (g : Graph) (b : Built S raw g)
    (unmixed : IsUnmixed S raw) where
  open S use {Operation, inputs, outputs, is_operation_local}

  -- An operation of the wave has all its producers in `done`, or it has a local one.
  abbrev Prepared : List Operation → ℕ → Type 0
  Prepared done i =
      ((p : ℕ) (op : Operation) → HasEdge g.adj p i → get_elem? raw p ≡ some op → op ∈ done)
      ⊎ ((p : ℕ) × (op : Operation) × HasEdge g.adj p i
          × (get_elem? raw p ≡ some op)
          × (is_operation_local op ≡ true))

  -- `before` is taken, and of it the local operations are in `done`.
  record Ready (before done : List Operation) (s : State Operation) : Type 0 where
    len : length s.ops ≡ length raw
    known : Knows S raw g b before s
    locals : (op : Operation) → op ∈ before → is_operation_local op ≡ true → op ∈ done
    prepared : (i : ℕ) → i ∈ s.wave → Prepared done i

  Prepared-mono : (xs ys : List Operation) (i : ℕ) → Covers S xs ys → Prepared xs i → Prepared ys i
  Prepared-mono xs ys i sub (inl h) = inl (λ p op e at. sub op (h p op e at))
  Prepared-mono xs ys i sub (inr h) = inr h

  Head-prompt :
      {before done : List Operation} {s : State Operation} {i : ℕ}
      (h : Head S g.adj (length raw) b.len_adj i s)
      → Ready before done s
      → Prepared done i
      → InputsFrom S done h.op
  Head-prompt {before} {done} {s} {i} h r prep w m =
      let at = r.known.here i h.op h.at in
      let (p, made, e) = b.input_edge i w (record { op = h.op; at = at; takes = m }) in
      mem-all_outputs S w made.op done (found p made e at prep) made.out
    where
      found :
          (p : ℕ) (made : Makes S raw p w)
          → HasEdge g.adj p i
          → get_elem? raw i ≡ some h.op
          → Prepared done i
          → made.op ∈ done
      found p made e at (inl early) = early p made.op e made.at
      found p made e at (inr (q, o, edge, here, is_local)) =
          let (v, t, x) = b.edge_input q i edge in
          let c : t.op ≡ h.op = some-injective t.op h.op (sym t.at ∙ at) in
          let y : x.op ≡ o = some-injective x.op o (sym x.at ∙ here) in
          let kind =
            unmixed h.op made.op x.op w v (mem-of_get_elem? raw i h.op at)
              (mem-of_get_elem? raw p made.op made.at) (mem-of_get_elem? raw q x.op x.at) m
              (subst (λ k. v ∈ inputs k) c t.takes) made.out x.out in
          r.locals made.op (producer_taken S raw g b p h.free r.len r.known e made.at)
            (kind ∙ ap is_operation_local y ∙ is_local)

  -- What a wave grows by covers what was there.
  grow-Covers : (done : List Operation) (op : Operation) → Covers S done (grow S done op)
  grow-Covers done op o m = elim (Bool-cases (is_operation_local op)) [
    | inl e ↦ rw e (mem-append_left o done (op ∷ []) m)
    | inr e ↦ rw e m
  ]

  wave_schedule : (i : ℕ) (op : Operation) (s : State Operation) → (schedule S i op s).wave ≡ s.wave
  unfolding schedule
  wave_schedule i op s = ground arith

  in_wave : {l m : List ℕ} {j : ℕ} (c : ℕ) → l ≡ j ∷ m → c ∈ m → c ∈ l
  in_wave c e m = subst (λ x. c ∈ x) (sym e) (inr m)

  Ready-take :
      {before done : List Operation} {s t : State Operation} {i : ℕ}
      (h : Head S g.adj (length raw) b.len_adj i s)
      → Released S g.adj (length raw) (is_operation_local h.op) h.consumers (schedule S i h.op s) t
      → Ready before done s
      → Ready (before ++ h.op ∷ []) (grow S done h.op) t
  Ready-take {before} {done} {s} {t} {i} h r ready = record {
    len = ap length ops_same ∙ length-set s.ops i none ∙ ready.len;
    known = Knows-take S raw g b h ops_same ready.known;
    locals = λ op m is. elim (mem-append op before (h.op ∷ []) m) [
      | inl old ↦ grow-Covers done h.op op (ready.locals op old is)
      | inr (inl e) ↦
          let l : is_operation_local h.op ≡ true = sym (ap is_operation_local e) ∙ is in
          rw (l, e) (mem-snoc h.op done)
      | inr (inr nowhere) ↦ absurd nowhere
    ];
    prepared = λ c m. elim (r.wave_from c m) [
      | inl old ↦
          Prepared-mono done (grow S done h.op) c (grow-Covers done h.op)
            (ready.prepared c (subst (λ l. c ∈ l) (wave_schedule i h.op s) old))
      | inr (is, told) ↦ inr (
        i,
        h.op,
        record { targets = h.consumers; at = h.edges; target = told },
        ready.known.here i h.op h.at,
        is,
      )
    ];
  }
    where
      ops_same : t.ops ≡ set s.ops i none
      ops_same = r.ops ∙ ops_schedule S raw g b i h.op s

  Covers-wave :
      (before done wave : List Operation)
      → Covers S before done
      → Covers S
          (before ++ wave)
          ((done ++ keep is_operation_local wave) ++ keep (λ op. not (is_operation_local op)) wave)
  Covers-wave before done wave sub op m =
      let there = keep is_operation_local wave in
      let away = keep (λ (o : Operation). not (is_operation_local o)) wave in
      elim (mem-append op before wave m) [
        | inl old ↦
            mem-append_left op (done ++ there) away (mem-append_left op done there (sub op old))
        | inr new ↦ elim (Bool-cases (is_operation_local op)) [
          | inl e ↦
              mem-append_left op (done ++ there) away
                (mem-append_right op done there (mem-keep_of_mem is_operation_local wave op new e))
          | inr e ↦
              mem-append_right op (done ++ there) away
                (mem-keep_of_mem (λ o. not (is_operation_local o)) wave op new (rw e refl))
        ]
      ]

  -- At the start of a wave the producers of its operations are taken.
  Ready-wave :
      {before done : List Operation} (s : State Operation)
      → Inv S g.adj (length raw) [] s
      → Knows S raw g b before s
      → Covers S before done
      → Ready before done s
  Ready-wave s v k sub = record {
    len = v.len_ops;
    known = k;
    locals = λ op m is. sub op m;
    prepared = λ i m.
        let (op, at, idle) =
          is_ready-pos (get_elem? s.ops i) (get_elem? s.in_degree i)
            (omega (arith, v.queued i, count-pos_of_mem i s.wave m)) in
        inl λ p o e here. sub o (
          producer_taken S raw g b p
            (omega (arith, v.degree i, get_or-eq_of_get_elem? s.in_degree i 0 idle)) v.len_ops k e
            here);
  }

  module _ {defer : Bool} where
    steps-IsPrompt :
        {s t : State Operation} (st : Run S raw g b defer s t) (before done : List Operation)
        → Ready before done s
        → IsPrompt S done (taken_ops S st)
    unfolding taken_ops
    steps-IsPrompt (Steps.last e same) before done r = tt
    steps-IsPrompt (Steps.more {s = s} e v (deferred h later same) st) before done r =
        steps-IsPrompt st before done (record {
          len = ap (λ x. length x.ops) same ∙ r.len;
          known = Knows-same_ops S raw g b (ap (λ x. x.ops) same) r.known;
          locals = r.locals;
          prepared = λ c m. r.prepared c (in_wave c e (subst (λ x. c ∈ x.wave) same m));
        })
    steps-IsPrompt (Steps.more {i = i} {wave = l} {s = s} e v (taken h now rel) st) before done r =
        let r' : Ready before done (record s { wave = l }) = record {
          len = r.len;
          known = Knows-same_ops S raw g b refl r.known;
          locals = r.locals;
          prepared = λ c m. r.prepared c (in_wave c e m);
        } in
        (
          Head-prompt h r' (r.prepared i (subst (λ x. i ∈ x) (sym e) (inl refl))),
          steps-IsPrompt st (before ++ h.op ∷ []) (grow S done h.op) (Ready-take h rel r'),
        )

    -- The rounds of a run can be executed, and what is taken is there after them.
    pub rounds_ready :
        {p q : State Operation × List (Round Operation)} (r : RoundsRun S raw g b defer p q)
        (before done : List Operation)
        → Knows S raw g b before p.0
        → Covers S before done
        → IsExecutable S done (map (split S) (waves S r))
          × Covers S (before ++ concat (waves S r)) (after S done (map (split S) (waves S r)))
    unfolding waves begin_round end_round
    rounds_ready (Rounds.last e same) before done k sub =
        (tt, subst (λ l. Covers S l done) (sym (append-nil before)) sub)
    rounds_ready (Rounds.more {s = s} v empty steps e rest) before done k sub =
        let wave = taken_ops S steps in
        let ready = Ready-wave s v k sub in
        let prompt = steps-IsPrompt steps before done (record {
          len = ready.len;
          known = Knows-same_ops S raw g b refl ready.known;
          locals = ready.locals;
          prepared = ready.prepared;
        }) in
        let (mid, ordered) = steps_order S raw g b steps before (Knows-same_ops S raw g b refl k) in
        let (later, covers) =
          rounds_ready rest (before ++ wave) _ (Knows-same_ops S raw g b refl mid)
            (Covers-wave before done wave sub) in
        (
          (IsPrompt-local S done wave prompt, IsPrompt-network S done wave prompt, later),
          subst (λ l. Covers S l (after S done (map (split S) (wave ∷ waves S rest))))
              (append_assoc before wave (concat (waves S rest))) covers,
        )
