-- ===== src/Mesh/Channels.antt =====
-- src/networking/secure_mesh/mesh_network.rs: the channels that `send_objects_many` and
-- `recv_objects_many` take are put back when the call succeeds.
use mpc_core.Prelude.{
  ℕ, ◌≡◌, ◌≢◌, refl, ◌∙◌, sym, ap, Bool, true, false, Option, none, some, List, [], ◌∷◌,
}
use mpc_core.Prelude.{
  get_elem?, get_elem?-set_self, get_elem?-set_ne, lt-get_elem?, count, All, mem-All, mem-of_count,
  inl, inr, ltb, arith, Bool-cases,
}
use mpc_core.Prelude.Runs.{◌>>=◌, lift, gets, modify}
use mpc_core.Execution.Contract.{Safe}
use mpc_core.Mesh.{Channel, Mesh, take_channel, restore}

-- The index is in range and has a channel.
abbrev pub is_open : {Ch : Type 0} → Option (Option Ch) → Bool
is_open (some (some c)) = true
is_open (some none) = false
is_open none = false

module _ {Ch : Type 0} (C : Channel Ch) where
  abbrev pub at : Mesh C → ℕ → Option (Option Ch)
  at s p = get_elem? s.channels p

  -- The keys had channels and have none now, and nothing else has changed.
  pub record Taken (keys : List ℕ) (s t : Mesh C) : Type 0 where
    pub gone : All (λ k. (is_open (at s k) ≡ true) × (at t k ≡ some none)) keys
    pub others : (p : ℕ) → count p keys ≡ 0 → at t p ≡ at s p

  -- The keys have channels, and nothing else has changed.
  pub record Restored (keys : List ℕ) (s t : Mesh C) : Type 0 where
    pub back : All (λ k. is_open (at t k) ≡ true) keys
    pub others : (p : ℕ) → count p keys ≡ 0 → at t p ≡ at s p

  abbrev pub Took : ℕ → Mesh C → Mesh C → Type 0
  Took k s t =
      (is_open (at s k) ≡ true) × (at t k ≡ some none) × ((p : ℕ) → k ≢ p → at t p ≡ at s p)

  pub take_channel-Safe : (k : ℕ) (s : Mesh C) → Safe (λ c t. Took k s t) (take_channel C k s)
  unfolding take_channel Safe
  take_channel-Safe k s = go (at s k) refl
    where
      go : (o : Option (Option Ch)) → at s k ≡ o → Safe (λ c t. Took k s t) (take_channel C k s)
      go none e = rw (take_channel, e) tt
      go (some none) e = rw (take_channel, e) tt
      go (some (some c)) e =
          rw (take_channel, e)
            (
              refl,
              get_elem?-set_self s.channels k none (lt-get_elem? s.channels k e),
              λ p ne. get_elem?-set_ne s.channels k p none ne,
            )

  -- Taking one channel and then others.
  pub Taken-cons :
      (k : ℕ) (ks : List ℕ) (s t u : Mesh C) → Took k s t → Taken ks t u → Taken (k ∷ ks) s u
  Taken-cons k ks s t u (was, now, same) r = record {
    gone = ((was, r.others k new ∙ now), All-imp ks new r.gone);
    others = λ p n. let ne : k ≢ p = ground arith in r.others p (ground arith) ∙ same p ne;
  }
    where
      new : count k ks ≡ 0
      new = elim (Bool-cases (ltb 0 (count k ks))) [
        | inl e ↦
            let (open_then, _) =
              mem-All (λ j. (is_open (at t j) ≡ true) × (at u j ≡ some none)) ks k r.gone
                (mem-of_count k ks (ground arith)) in
            let shut : is_open (at t k) ≡ false = ap is_open now in cc
        | inr e ↦ ground arith
      ]

      All-imp :
          (js : List ℕ)
          → count k js ≡ 0
          → All (λ j. (is_open (at t j) ≡ true) × (at u j ≡ some none)) js
          → All (λ j. (is_open (at s j) ≡ true) × (at u j ≡ some none)) js
      All-imp [] n h = tt
      All-imp (j ∷ js) n ((o, g), h) =
          let ne : k ≢ j = ground arith in
          ((ap is_open (sym (same j ne)) ∙ o, g), All-imp js (ground arith) h)

  abbrev pub Gave : ℕ → Mesh C → Mesh C → Type 0
  Gave k s t = (is_open (at t k) ≡ true) × ((p : ℕ) → k ≢ p → at t p ≡ at s p)

  pub restore-Safe :
      (k : ℕ) (c : Ch) (s : Mesh C)
      → at s k ≡ some none
      → Safe (λ _ t. Gave k s t) (restore C k c s)
  unfolding restore Safe gets lift modify ◌>>=◌
  restore-Safe k c s e =
      let here = get_elem?-set_self s.channels k (some c) (lt-get_elem? s.channels k e) in
      let there = λ (p : ℕ) (ne : k ≢ p). get_elem?-set_ne s.channels k p (some c) ne in
      rw e (ap is_open here, there)

  -- Giving one channel back and then others.
  pub Restored-cons :
      (k : ℕ) (ks : List ℕ) (s t u : Mesh C)
      → count k ks ≡ 0
      → Gave k s t
      → Restored ks t u
      → Restored (k ∷ ks) s u
  Restored-cons k ks s t u new (now, same) r = record {
    back = (ap is_open (r.others k new) ∙ now, r.back);
    others = λ p n. let ne : k ≢ p = ground arith in r.others p (ground arith) ∙ same p ne;
  }

  pub still_free :
      (k : ℕ) (ks : List ℕ) (s t : Mesh C)
      → count k ks ≡ 0
      → Gave k s t
      → All (λ j. at s j ≡ some none) ks
      → All (λ j. at t j ≡ some none) ks
  still_free k [] s t n g h = tt
  still_free k (j ∷ js) s t n g (e, h) =
      let ne : k ≢ j = ground arith in (g.1 j ne ∙ e, still_free k js s t (ground arith) g h)

  pub free_of_gone :
      (ks : List ℕ) (s t : Mesh C)
      → All (λ k. (is_open (at s k) ≡ true) × (at t k ≡ some none)) ks
      → All (λ k. at t k ≡ some none) ks
  free_of_gone [] s t h = tt
  free_of_gone (k ∷ ks) s t (a, h) = (a.1, free_of_gone ks s t h)

  -- What is taken and given back is there as before.
  pub there_again :
      (ks : List ℕ) (s t u : Mesh C)
      → Taken ks s t
      → Restored ks t u
      → (p : ℕ) → is_open (at u p) ≡ is_open (at s p)
  there_again ks s t u a r p = elim (Bool-cases (ltb 0 (count p ks))) [
    | inl e ↦
        let m = mem-of_count p ks (ground arith) in
        let (was, _) =
          mem-All (λ k. (is_open (at s k) ≡ true) × (at t k ≡ some none)) ks p a.gone m in
        mem-All (λ k. is_open (at u k) ≡ true) ks p r.back m ∙ sym was
    | inr e ↦ let n : count p ks ≡ 0 = ground arith in ap is_open (r.others p n ∙ a.others p n)
  ]
