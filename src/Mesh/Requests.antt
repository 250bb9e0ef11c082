-- ===== src/Mesh/Requests.antt =====
-- src/networking/secure_mesh/mesh_network.rs, `recv_objects_many`: the requests, numbered and grouped.
use mpc_core.Prelude.{
  ℕ, zero, suc, ◌+◌, ◌≤◌, ◌<◌, ◌≡◌, refl, ◌∙◌, sym, ap, subst, Option, none, some, List, [], ◌∷◌,
  length, map, concat,
}
use mpc_core.Prelude.{
  get_elem?, lt-get_elem?, replicate, length-replicate, count, All-of_mem, ◌∈◌, inl, inr, arith,
}
use mpc_core.Prelude.Sums.{sum, sum-perm}
use mathlib.Core.List.{Perm}
use mathlib.Core.List.Perm
use mpc_core.Network.{ReceiveRequest}
use mpc_core.Mesh.{enumerate_requests}
use mpc_core.Mesh.Slots.{Awaits, indices}

-- What `into_group_map` promises: no key is there twice, and the groups hold the values between them.
pub record IsGroupMap {A : Type 0} (group_map : List (ℕ × A) → List (ℕ × List A)) : Type 0 where
  pub once : (xs : List (ℕ × A)) (k : ℕ) → count k (map (λ g. g.0) (group_map xs)) ≤ 1
  pub same : (xs : List (ℕ × A)) → Perm (concat (map (λ g. g.1) (group_map xs))) (map (λ x. x.1) xs)
  pub within :
      (xs : List (ℕ × A)) (a : A)
      → a ∈ concat (map (λ g. g.1) (group_map xs))
      → a ∈ map (λ x. x.1) xs

abbrev numbered : ℕ → List ReceiveRequest → List (ℕ × Option ℕ)
numbered index requests = map (λ x. x.1) (enumerate_requests index requests)

numbered-fits :
    (k : ℕ) (requests : List ReceiveRequest) (c : ℕ × Option ℕ)
    → c ∈ numbered k requests
    → (j : ℕ) × (r : ReceiveRequest) × (c.0 ≡ k + j)
      × (get_elem? requests j ≡ some r)
      × (r.count ≡ c.1)
numbered-fits k [] c m = absurd m
numbered-fits k (r ∷ requests) c (inl e) =
    (0, r, ap (λ x. x.0) e ∙ omega arith, refl, sym (ap (λ x. x.1) e))
numbered-fits k (r ∷ requests) c (inr m) =
    let (j, q, at, here, same) = numbered-fits (suc k) requests c m in
    (suc j, q, at ∙ omega arith, here, same)

numbered-count :
    (k i : ℕ) (requests : List ReceiveRequest)
    → (i < k → count i (indices (numbered k requests)) ≡ 0)
      × (k ≤ i → i < k + length requests → count i (indices (numbered k requests)) ≡ 1)
      × (count i (indices (numbered k requests)) ≤ 1)
numbered-count k i [] = (λ h. refl, λ h l. absurd (omega arith), omega arith)
numbered-count k i (r ∷ requests) =
    let (low, mid, most) = numbered-count (suc k) i requests in
    (λ h. ground (arith, low), λ h l. ground (arith, low, mid), ground (arith, low, most))

index_count :
    (xs : List (ℕ × Option ℕ)) (i : ℕ)
    → count i (indices xs) ≡ sum (map (λ c. count i (c.0 ∷ [])) xs)
unfolding sum
index_count [] i = refl
index_count (c ∷ xs) i = ground (arith, index_count xs i)

index_count-perm :
    (xs ys : List (ℕ × Option ℕ)) (i : ℕ) → Perm xs ys → count i (indices xs) ≡ count i (indices ys)
index_count-perm xs ys i p =
    index_count xs i ∙ sum-perm (Perm.map (λ c. count i (c.0 ∷ [])) p) ∙ sym (index_count ys i)

pub get_elem?-replicate :
    {A : Type 0} (n i : ℕ) (a : A) → i < n → get_elem? (replicate n a) i ≡ some a
get_elem?-replicate zero i a h = absurd (omega arith)
get_elem?-replicate (suc n) zero a h = refl
get_elem?-replicate (suc n) (suc i) a h = get_elem?-replicate n i a (omega arith)

-- At the start everything is missing.
pub nothing_arrived :
    {T : Type 0} (group_map : List (ℕ × (ℕ × Option ℕ)) → List (ℕ × List (ℕ × Option ℕ)))
    (requests : List ReceiveRequest)
    → IsGroupMap group_map
    → Awaits {T = T} requests
        (concat (map (λ g. g.1) (group_map (enumerate_requests 0 requests))))
        (replicate (length requests) none)
nothing_arrived group_map requests law =
    let xs = enumerate_requests 0 requests in
    let missing = concat (map (λ g. g.1) (group_map xs)) in
    let count_same = λ (i : ℕ). index_count-perm missing (numbered 0 requests) i (law.same xs) in
    record {
      size = length-replicate (length requests) none;
      fits = All-of_mem _ missing λ c m.
          let (j, r, at, here, same) = numbered-fits 0 requests c (law.within xs c m) in
          (r, subst (λ i. get_elem? requests i ≡ some r) (sym (at ∙ omega arith)) here, same);
      free = All-of_mem _ missing λ c m.
          let (j, r, at, here, same) = numbered-fits 0 requests c (law.within xs c m) in
          get_elem?-replicate (length requests) c.0 none
            (omega (arith, at, lt-get_elem? requests j here));
      once = λ i. omega (arith, count_same i, (numbered-count 0 i requests).2);
      full = λ i lt none_left. absurd (
          omega (
            arith,
            none_left,
            count_same i,
            (numbered-count 0 i requests).1 (omega arith) (omega arith),
          ));
    }
