-- ===== src/Mesh/Receive.antt =====
-- src/networking/secure_mesh/mesh_network.rs: `recv_objects_many` answers every request.
use mpc_core.Prelude.{ℕ, ◌≡◌, Option, List, [], ◌∷◌, map, concat}
use mpc_core.Mesh.{Channel, Mesh}
use mpc_core.Mesh.Tasks.{AreChunks}
use mpc_core.Mesh.Objects.{Slots}

module _ {Ch : Type 0} (C : Channel Ch) where
  abbrev Task : Type 0
  Task = ℕ × (List (ℕ × Option ℕ) × Ch)

  abbrev missing_of : List Task → List (ℕ × Option ℕ)
  missing_of tasks = concat (map (λ t. t.1.0) tasks)

  module _ {T : Type 0} (from_bytes : List ℕ → Option (List T)) where
    abbrev Result : Type 0
    Result = ℕ × (ℕ × (Ch × List (ℕ × List T)))

    -- Each task has its result.
    abbrev AreArrived : List Task → List Result → Type 0
    AreArrived [] [] = Unit
    AreArrived (t ∷ tasks) (r ∷ received) =
        (r.1.0 ≡ t.0) × AreChunks t.1.0 r.1.1.1 × AreArrived tasks received
    AreArrived [] (r ∷ received) = ⊥
    AreArrived (t ∷ tasks) [] = ⊥
