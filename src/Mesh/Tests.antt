-- ===== src/Mesh/Tests.antt =====
-- src/networking/secure_mesh/mesh_network.rs: uses of the theorems at concrete inputs.
use mpc_core.Prelude.{
  ℕ, ◌≤◌, ◌<◌, ◌≡◌, refl, Option, none, some, List, [], ◌∷◌, length, map, concat,
}
use mpc_core.Prelude.{◌⊎◌, Outcome, ok, err, panic, out_of_fuel, if◌then◌else◌, ◌==◌}
use mathlib.Core.List.{Perm}
use mathlib.Core.List.Perm
use mpc_core.Prelude.Runs.{◌>>=◌, lift, gets, modify}
use mpc_core.Network.{ReceiveRequest, receive_request}
use mpc_core.Mesh.{Channel, MeshNetwork, MeshError, too_few, left_over}
use mpc_core.Mesh.Tasks.{split_counts, AreChunks, counted, split_counts_lem}
use mpc_core.Mesh.Objects.{recv_objects_many}
use mpc_core.Mesh.Channels.{at}
use mpc_core.Prelude.{◌≢◌}
use mpc_core.Mesh.{broadcast}
use mpc_core.Mesh.Broadcast.{HasSent, broadcast-HasSent}

-- A channel is the messages that are still to arrive.
abbrev next_message : List (List ℕ) → List (List ℕ) × Outcome (Unit {0}) (List ℕ × ℕ)
next_message [] = ([], err tt)
next_message (m ∷ ms) = (ms, ok (m, length m))

abbrev pipe : Channel (List (List ℕ))
pipe = record { send = λ c bytes. (c, ok (length bytes)); recv = next_message }

abbrev insert_group : {A : Type 0} → ℕ → A → List (ℕ × List A) → List (ℕ × List A)
insert_group k a [] = (k, a ∷ []) ∷ []
insert_group k a ((j, xs) ∷ groups) =
    let rest = insert_group k a groups in if j == k then (j, a ∷ xs) ∷ groups else (j, xs) ∷ rest

abbrev grouped : {A : Type 0} → List (ℕ × A) → List (ℕ × List A)
grouped [] = []
grouped ((k, a) ∷ xs) = insert_group k a (grouped xs)

module _ {A : Type 0} where
  abbrev keys : List (ℕ × List A) → List ℕ
  keys groups = map (λ g. g.0) groups

  abbrev values : List (ℕ × List A) → List A
  values groups = concat (map (λ g. g.1) groups)

abbrev after_one : {A : Type 0} → A → Outcome MeshError (List A) → Outcome MeshError (List A)
after_one a (ok xs) = ok (a ∷ xs)
after_one a (err e) = err e
after_one a panic = panic
after_one a out_of_fuel = out_of_fuel

abbrev in_order : {A : Type 0} → List (Outcome MeshError A) → Outcome MeshError (List A)
in_order [] = ok []
in_order (ok a ∷ os) = after_one a (in_order os)
in_order (err e ∷ os) = err e
in_order (panic ∷ os) = panic
in_order (out_of_fuel ∷ os) = out_of_fuel

-- Three players; from player 1 three objects are to arrive, and from player 2 one.
abbrev mesh : MeshNetwork (List (List ℕ))
mesh = record {
  my_id = 0;
  n_parties = 3;
  channels = none ∷ some ((7 ∷ 8 ∷ 9 ∷ []) ∷ []) ∷ some ((5 ∷ []) ∷ []) ∷ [];
}

abbrev requests : List ReceiveRequest
requests = receive_request 1 2 ∷ receive_request 2 1 ∷ receive_request 1 1 ∷ []

answered :
    (recv_objects_many pipe some grouped in_order requests mesh).1
    ≡ ok ((7 ∷ 8 ∷ []) ∷ (5 ∷ []) ∷ (9 ∷ []) ∷ [], 4)
unfolding recv_objects_many ◌>>=◌ lift gets modify
answered = refl

abbrev counts : List (ℕ × Option ℕ)
counts = (0, some 2) ∷ (4, none) ∷ []

abbrev objects : List ℕ
objects = 7 ∷ 8 ∷ 9 ∷ []

split_counts_lem_example :
    (length objects ≡ counted counts
      → (chunks : List (ℕ × List ℕ)) × (split_counts counts objects ≡ ok chunks)
        × AreChunks counts chunks
        × (concat (map (λ c. c.1) chunks) ≡ objects))
    × (length objects < counted counts → split_counts counts objects ≡ err too_few)
    × (counted counts < length objects → split_counts counts objects ≡ err left_over)
split_counts_lem_example = split_counts_lem counts objects

-- A channel that keeps what is sent.
abbrev log : Channel (List (List ℕ))
log = record { send = λ c bytes. (bytes ∷ c, ok (length bytes)); recv = next_message }

abbrev trio : MeshNetwork (List (List ℕ))
trio = record { my_id = 1; n_parties = 3; channels = some [] ∷ none ∷ some [] ∷ [] }

abbrev told : MeshNetwork (List (List ℕ))
told = record {
  my_id = 1;
  n_parties = 3;
  channels = some ((8 ∷ []) ∷ []) ∷ none ∷ some ((8 ∷ []) ∷ []) ∷ [];
}

broadcasts : broadcast log (8 ∷ []) trio ≡ (told, ok 2)
unfolding broadcast ◌>>=◌ lift gets modify
broadcasts = refl

broadcast-HasSent_example :
    ((2 < 3) × (2 ≢ trio.my_id) × HasSent log (8 ∷ []) trio told 2)
    ⊎ (((3 ≤ 2) ⊎ (2 ≡ trio.my_id)) × (at log told 2 ≡ at log trio 2))
broadcast-HasSent_example = broadcast-HasSent log (8 ∷ []) 2 trio told 2 broadcasts
