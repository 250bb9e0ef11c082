-- ===== src/Mesh/Send.antt =====
-- src/networking/secure_mesh/mesh_network.rs: `send_objects_many` on the state of the channels.
use mpc_core.Prelude.{ℕ, ◌≤◌, ◌≡◌, List, map}
use mpc_core.Prelude.{count, All, ◌∈◌, ◌⊎◌, inl, inr, Outcome, ok, err, Returns}
use mpc_core.Prelude.Runs.{lift}
use mpc_core.Execution.Contract.{Safe}
use mpc_core.Mesh.{Channel, MeshError, Mesh}

-- What `try_join_all` promises of tasks that come back: all their results in order, or the error of one.
pub record IsTryJoin {A : Type 0} (join : List (Outcome MeshError A) → Outcome MeshError (List A))
    : Type 0 where
  pub joins :
      (os : List (Outcome MeshError A))
      → All Returns os
      → ((xs : List A) × (os ≡ map ok xs) × (join os ≡ ok xs))
        ⊎ ((e : MeshError) × (err e ∈ os) × (join os ≡ err e))

-- What `into_group_map` promises of its keys: none is there twice.
abbrev pub IsGrouping : {A B : Type 0} → (List (ℕ × A) → List (ℕ × B)) → Type 0
IsGrouping {A} group_map = (xs : List (ℕ × A)) (k : ℕ) → count k (map (λ g. g.0) (group_map xs)) ≤ 1

abbrev pub keys_of : {A : Type 0} → List (ℕ × A) → List ℕ
keys_of xs = map (λ x. x.0) xs

abbrev pub targets_of : {A : Type 0} → List (ℕ × (ℕ × A)) → List ℕ
targets_of xs = map (λ x. x.1.0) xs

pub lift_ok-Safe :
    {St A : Type 0} (P : A → St → Type 0) (a : A) (s : St)
    → P a s
    → Safe P (lift {E = MeshError} (ok a) s)
unfolding lift Safe
lift_ok-Safe P a s p = p

module _ {Ch : Type 0} (C : Channel Ch) where
  pub joined :
      {A : Type 0} (join : List (Outcome MeshError A) → Outcome MeshError (List A)) (s : Mesh C)
      (P : Mesh C → Type 0) (os : List (Outcome MeshError A))
      → IsTryJoin join
      → All Returns os
      → P s
      → Safe (λ xs t. P t × (os ≡ map ok xs)) (lift (join os) s)
  unfolding lift Safe
  joined join s P os law h p = elim (law.joins os h) [
    | inl (xs, are, e) ↦ rw e (p, are)
    | inr (e, from, fails) ↦ rw fails tt
  ]
