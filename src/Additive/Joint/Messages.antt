-- ===== src/Additive/Joint/Messages.antt =====
-- src/example/additive.rs: what arrives of an operation's messages.
use mpc_core.Prelude.{ℕ, zero, suc, ◌+◌, ◌≤◌, ◌<◌, ◌≡◌, ◌≢◌, refl, ◌∙◌, sym, ap, List, [], ◌∷◌, map}
use mpc_core.Prelude.{false, arith, ◌==◌, ==→≡, Bool-cases, inl, inr, ◌∈◌}
use mpc_core.Network.{SendRequest, send_request, receive_request}
use mpc_core.Additive.{others}
use mpc_core.Additive.Sharing.{mem-others}
use mpc_core.Additive.Joint.{payloads, delivered}

-- A loop over players below `me` sends nothing to `me`.
payloads-others_above :
    (sender me start n : ℕ) (f : ℕ → ℕ)
    → me < start
    → payloads me (map (λ k. send_request k (f k)) (others sender start n)) ≡ []
unfolding payloads others
payloads-others_above sender me start zero f h = refl
payloads-others_above sender me start (suc n) f h =
    let ne : (start == me) ≡ false = ground arith in
    let rest = payloads-others_above sender me (suc start) n f (omega arith) in
    elim (Bool-cases (start == sender)) [ inl e ↦ rw e rest | inr e ↦ rw (e, ne) rest ]

-- A loop over all other players sends one value to each of them.
pub payloads-others :
    (sender me start n : ℕ) (f : ℕ → ℕ)
    → start ≤ me
    → me < start + n
    → me ≢ sender
    → payloads me (map (λ k. send_request k (f k)) (others sender start n)) ≡ f me ∷ []
unfolding payloads others
payloads-others sender me start zero f a b ne = absurd (omega arith)
payloads-others sender me start (suc n) f a b ne = elim (Bool-cases (start == sender)) [
  | inl e ↦ rw e (payloads-others sender me (suc start) n f (ground arith) (omega arith) ne)
  | inr e ↦ elim (Bool-cases (start == me)) [
    | inl g ↦
        let is : start ≡ me = ==→≡ start me g in
        rw (e, g, payloads-others_above sender me (suc start) n f (omega arith))
          (ap (λ k. f k ∷ []) is)
    | inr g ↦ rw (e, g) (payloads-others sender me (suc start) n f (ground arith) (omega arith) ne)
  ]
]

-- A value from each player of a list that has sent one arrives for a request of one value each.
delivered_each :
    (sent : ℕ → List (SendRequest ℕ)) (me : ℕ) (z : ℕ → ℕ) (players : List ℕ)
    → ((k : ℕ) → k ∈ players → payloads me (sent k) ≡ z k ∷ [])
    → delivered sent me (map (λ k. receive_request k 1) players) ≡ map z players
unfolding delivered
delivered_each sent me z [] h = refl
delivered_each sent me z (k ∷ players) h =
    let rest = delivered_each sent me z players (λ j m. h j (inr m)) in
    rw (h k (inl refl), rest) refl

-- When all players send the others their value, the values of all others arrive.
pub delivered-others :
    (sent : ℕ → List (SendRequest ℕ)) (me n : ℕ) (z : ℕ → ℕ)
    → me < n
    → ((k : ℕ) → k < n → sent k ≡ map (λ i. send_request i (z k)) (others k 0 n))
    → delivered sent me (map (λ k. receive_request k 1) (others me 0 n)) ≡ map z (others me 0 n)
delivered-others sent me n z lt each = delivered_each sent me z (others me 0 n) λ k m.
    let (ne, low, high) = mem-others me 0 n k m in
    ap (payloads me) (each k (omega (arith, high)))
    ∙ payloads-others k me 0 n (λ i. z k) (omega arith) (omega arith) (λ e. ne (sym e))
