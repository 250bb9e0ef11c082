-- ===== src/Mesh/Slots.antt =====
-- src/networking/secure_mesh/mesh_network.rs, `recv_objects_many`: the results that are still missing, and
-- the chunks that fill them.
use mpc_core.Prelude.{
  ℕ, suc, ◌≤◌, ◌<◌, ◌≡◌, ◌≢◌, refl, ◌∙◌, sym, ap, subst, Option, none, some, List, [], ◌∷◌, ◌++◌,
  length, map,
}
use mpc_core.Prelude.{
  get_elem?, get_elem?-set_self, get_elem?-set_ne, lt-get_elem?, set, length-set, count, All, inl,
  inr, arith, ◌==◌, ==→≡, ==→≢, Bool-cases,
}
use mpc_core.Prelude.{ok}
use mpc_core.Network.{ReceiveRequest, expected, Matches}
use mpc_core.Mesh.Tasks.{AreChunks}
use mpc_core.Mesh.Objects.{Slots, place, collect}

abbrev pub indices : List (ℕ × Option ℕ) → List ℕ
indices counts = map (λ c. c.0) counts

module _ {T : Type 0} (requests : List ReceiveRequest) where
  -- The request has its objects.
  abbrev pub IsFull : Slots T → ℕ → Type 0
  IsFull slots i =
      (r : ReceiveRequest) × (objects : List T) × (get_elem? requests i ≡ some r)
      × (get_elem? slots i ≡ some (some objects))
      × (length objects ≡ expected r.count)

  -- What is still missing, by index and count.
  pub record Awaits (missing : List (ℕ × Option ℕ)) (slots : Slots T) : Type 0 where
    pub size : length slots ≡ length requests
    pub fits :
        All
          (λ c. (r : ReceiveRequest) × (get_elem? requests c.0 ≡ some r) × (r.count ≡ c.1))
          missing
    pub free : All (λ c. get_elem? slots c.0 ≡ some none) missing
    pub once : (i : ℕ) → count i (indices missing) ≤ 1
    pub full : (i : ℕ) → i < length requests → count i (indices missing) ≡ 0 → IsFull slots i

  free_set :
      (i : ℕ) (objects : List T) (slots : Slots T) (missing : List (ℕ × Option ℕ))
      → count i (indices missing) ≡ 0
      → All (λ c. get_elem? slots c.0 ≡ some none) missing
      → All (λ c. get_elem? (set slots i (some objects)) c.0 ≡ some none) missing
  free_set i objects slots [] n h = tt
  free_set i objects slots ((j, c) ∷ missing) n (e, h) =
      let ne : i ≢ j = ground arith in
      (
        get_elem?-set_ne slots i j (some objects) ne ∙ e,
        free_set i objects slots missing (ground arith) h,
      )

  -- A chunk of the expected size fills its slot.
  Awaits-set :
      (i : ℕ) (c : Option ℕ) (missing : List (ℕ × Option ℕ)) (objects : List T) (slots : Slots T)
      → Awaits ((i, c) ∷ missing) slots
      → length objects ≡ expected c
      → Awaits missing (set slots i (some objects))
  Awaits-set i c missing objects slots a n =
      let new : count i (indices missing) ≡ 0 = ground (arith, a.once i) in
      let (r, here, same) = a.fits.0 in
      record {
        size = length-set slots i (some objects) ∙ a.size;
        fits = a.fits.1;
        free = free_set i objects slots missing new a.free.1;
        once = λ j. ground (arith, a.once j);
        full = λ j lt none_left. elim (Bool-cases (i == j)) [
          | inl e ↦
              let is : i ≡ j = ==→≡ i j e in
              subst (IsFull (set slots i (some objects))) is (
                r,
                objects,
                here,
                get_elem?-set_self slots i (some objects) (lt-get_elem? slots i a.free.0),
                n ∙ ap expected (sym same),
              )
          | inr e ↦
              let ne : i ≢ j = ==→≢ i j e in
              let (r, xs, at, holds, len) = a.full j lt (ground arith) in
              (r, xs, at, get_elem?-set_ne slots i j (some objects) ne ∙ holds, len)
        ];
      }

  pub place-Awaits :
      (counts missing : List (ℕ × Option ℕ)) (chunks : List (ℕ × List T)) (slots : Slots T)
      → AreChunks counts chunks
      → Awaits (counts ++ missing) slots
      → (next : Slots T) × (place chunks slots ≡ ok next) × Awaits missing next
  unfolding place
  place-Awaits [] missing [] slots are a = (slots, refl, a)
  place-Awaits [] missing (x ∷ chunks) slots are a = absurd are
  place-Awaits (c ∷ counts) missing [] slots are a = absurd are
  place-Awaits ((i, c) ∷ counts) missing ((j, objects) ∷ chunks) slots (is, len, are) a =
      let (next, runs, rest) =
        place-Awaits counts missing chunks (set slots i (some objects)) are
          (Awaits-set i c (counts ++ missing) objects slots a len) in
      (
        next,
        subst (λ k. place ((k, objects) ∷ chunks) slots ≡ ok next) (sym is)
            (rw (place, a.free.0) runs),
        rest,
      )

collect-Matches :
    {T : Type 0} (requests : List ReceiveRequest) (slots : Slots T)
    → length slots ≡ length requests
    → ((i : ℕ) → i < length requests → IsFull requests slots i)
    → (lists : List (List T)) × (collect slots ≡ ok lists) × Matches requests lists
unfolding collect
collect-Matches [] [] n full = ([], refl, tt)
collect-Matches [] (s ∷ slots) n full = absurd (omega arith)
collect-Matches (r ∷ requests) [] n full = absurd (omega arith)
collect-Matches (r ∷ requests) (s ∷ slots) n full =
    let (lists, runs, matches) =
      collect-Matches requests slots (omega arith) (λ i lt. full (suc i) (omega arith)) in
    let (q, objects, here, holds, len) = full 0 (omega arith) in
    let is : s ≡ some objects = cc in
    let same : q ≡ r = cc in
    (objects ∷ lists, rw (is, runs) refl, (len ∙ ap (λ x. expected x.count) same, matches))

-- With nothing missing the results are complete.
pub collect-Awaits :
    {T : Type 0} (requests : List ReceiveRequest) (slots : Slots T)
    → Awaits requests [] slots
    → (lists : List (List T)) × (collect slots ≡ ok lists) × Matches requests lists
collect-Awaits requests slots a = collect-Matches requests slots a.size (λ i lt. a.full i lt refl)
