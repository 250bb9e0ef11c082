-- ===== src/Mesh/Broadcast.antt =====
-- src/networking/secure_mesh/mesh_network.rs: the players that `broadcast` sends to.
use mpc_core.Prelude.{
  ℕ, zero, suc, ◌+◌, ◌≤◌, ◌<◌, ◌≡◌, ◌≢◌, ◌∙◌, sym, ap, subst, none, some, List, ◌⊎◌, inl, inr,
}
use mpc_core.Prelude.{
  set, get_elem?-set_self, get_elem?-set_ne, lt-get_elem?, ltb, ◌==◌, ==→≡, ==→≢, Bool-cases,
  Option-cases, Outcome, ok, err, panic, out_of_fuel, arith,
}
use mpc_core.Prelude.Runs.{◌>>=◌, lift, gets, modify}
use mpc_core.Execution.Methods.{range_from}
use mpc_core.Execution.Sequence.Steps.{of_ok, ok_inj, through}
use mpc_core.Mesh.{
  Channel, Mesh, MeshError, send_failure, io_failure, call_channel, get_channel, send, broadcast_to,
  broadcast,
}
use mpc_core.Mesh.Channels.{at}

io_failure_ok :
    {A : Type 0} (e : MeshError) (o : Outcome (Unit {0}) A) {a : A}
    → io_failure e o ≡ ok a
    → o ≡ ok a
io_failure_ok e (ok b) h = let same : b ≡ _ = ok_inj h in ap ok same
io_failure_ok e (err u) h = cc
io_failure_ok e panic h = cc
io_failure_ok e out_of_fuel h = cc

module _ {Ch : Type 0} (C : Channel Ch) (payload : List ℕ) where
  -- The channel to the player has taken one send of the payload.
  abbrev pub HasSent : Mesh C → Mesh C → ℕ → Type 0
  HasSent s t p =
      (c : Ch) × (len : ℕ) × (at C s p ≡ some (some c))
      × ((C.send c payload).1 ≡ ok len)
      × (at C t p ≡ some (some (C.send c payload).0))

  send-HasSent :
      (to len : ℕ) (s t : Mesh C)
      → send C to payload s ≡ (t, ok len)
      → HasSent s t to × (t.my_id ≡ s.my_id) × ((p : ℕ) → to ≢ p → at C t p ≡ at C s p)
  unfolding send call_channel get_channel ◌>>=◌ gets lift modify
  send-HasSent to len s t h = elim (Bool-cases (ltb to s.n_parties)) [
    | inr e ↦ let bad = (of_ok (rw e at h)).1 in cc
    | inl e ↦ elim (Option-cases (at C s to)) [
      | inl f ↦ let bad = (of_ok (rw (e, f) at h)).1 in cc
      | inr (none, f) ↦ let bad = (of_ok (rw (e, f) at h)).1 in cc
      | inr (some c, f) ↦
          let after : Mesh C = record s {
            channels = set s.channels to (some (C.send c payload).0);
          } in
          let (is, sent) = of_ok {s = after} {t = t} (rw (e, f) at h) in
          (
            (
              c,
              len,
              f,
              io_failure_ok send_failure (C.send c payload).1 sent,
              ap (λ m. at C m to) is
                  ∙ get_elem?-set_self s.channels to (some (C.send c payload).0)
                      (lt-get_elem? s.channels to f),
            ),
            ap (λ m. m.my_id) is,
            λ p ne.
                ap (λ m. at C m p) is
                ∙ get_elem?-set_ne s.channels to p (some (C.send c payload).0) ne,
          )
    ]
  ]

  -- The loop from player `a` on.
  broadcast_to-HasSent :
      (a n sum total : ℕ) (s t : Mesh C)
      → broadcast_to C (range_from a n) payload sum s ≡ (t, ok total)
      → ((p : ℕ) → a ≤ p → p < a + n → p ≢ s.my_id → HasSent s t p)
        × ((p : ℕ) → (p < a) ⊎ ((a + n ≤ p) ⊎ (p ≡ s.my_id)) → at C t p ≡ at C s p)
  unfolding broadcast_to lift gets ◌>>=◌
  broadcast_to-HasSent a zero sum total s t h =
      let is = (of_ok {s = s} {t = t} h).0 in
      (λ p low high. absurd (omega arith), λ p out. ap (λ m. at C m p) is)
  broadcast_to-HasSent a (suc n) sum total s t h = elim (Bool-cases (a == s.my_id)) [
    | inl e ↦
        let (sent, kept) = broadcast_to-HasSent (suc a) n (sum + 0) total s t (rw e at h) in
        (
          λ p low high ne. sent p (ground (arith, e, ne)) (omega arith) ne,
          λ p out. kept p (elim out [
            | inl l ↦ inl (omega arith)
            | inr (inl g) ↦ inr (inl (omega arith))
            | inr (inr q) ↦ inr (inr q)
          ]),
        )
    | inr e ↦
        let h' : (send C a payload >>= λ len.
        broadcast_to C (range_from (suc a) n) payload (sum + len))
              s
            ≡ (t, ok total) =
          rw e at h in
        through (send C a payload) _ s t total h' λ u len first rest.
          let ((c, l, slot, runs, now), mine, others) = send-HasSent a len s u first in
          let (sent, kept) = broadcast_to-HasSent (suc a) n (sum + len) total u t rest in
          (
            λ p low high ne. elim (Bool-cases (a == p)) [
              | inl q ↦
                  subst (HasSent s t) (==→≡ a p q)
                    (c, l, slot, runs, kept a (inl (omega arith)) ∙ now)
              | inr q ↦
                  let (d, k, there, ran, then_) =
                    sent p (ground (arith, q)) (omega arith) (λ z. ne (z ∙ mine)) in
                  (d, k, sym (others p (==→≢ a p q)) ∙ there, ran, then_)
            ],
            λ p out. elim out [
              | inl l ↦ kept p (inl (omega arith)) ∙ others p (λ z. absurd (omega (arith, z)))
              | inr (inl g) ↦
                  kept p (inr (inl (omega arith))) ∙ others p (λ z. absurd (omega (arith, z)))
              | inr (inr q) ↦
                  kept p (inr (inr (q ∙ sym mine))) ∙ others p (λ z. ==→≢ a s.my_id e (z ∙ q))
            ],
          )
  ]

  -- After a broadcast that succeeds, a player in range other than the sender has been sent the payload, once;
  -- the sender's own slot, and any index out of range, is as it was.
  pub broadcast-HasSent :
      (total : ℕ) (s t : Mesh C) (p : ℕ)
      → broadcast C payload s ≡ (t, ok total)
      → ((p < s.n_parties) × (p ≢ s.my_id) × HasSent s t p)
        ⊎ (((s.n_parties ≤ p) ⊎ (p ≡ s.my_id)) × (at C t p ≡ at C s p))
  unfolding broadcast gets ◌>>=◌
  broadcast-HasSent total s t p h =
      let (sent, kept) = broadcast_to-HasSent 0 s.n_parties 0 total s t h in
      elim (Bool-cases (ltb p s.n_parties)) [
        | inr e ↦ inr (inl (ground (arith, e)), kept p (inr (inl (ground (arith, e)))))
        | inl e ↦ elim (Bool-cases (p == s.my_id)) [
          | inl q ↦ let is = ==→≡ p s.my_id q in inr (inr is, kept p (inr (inr is)))
          | inr q ↦
              let lt : p < s.n_parties = ground (arith, e) in
              let ne = ==→≢ p s.my_id q in inl (lt, ne, sent p (omega arith) (omega arith) ne)
        ]
      ]
