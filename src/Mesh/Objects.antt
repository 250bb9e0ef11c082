-- ===== src/Mesh/Objects.antt =====
-- src/networking/secure_mesh/mesh_network.rs: `send_objects_many` and `recv_objects_many`.
use mpc_core.Prelude.{ℕ, ◌+◌, Option, none, some, List, [], ◌∷◌, length, map}
use mpc_core.Prelude.{get_elem?, set, replicate, Outcome, ok, err, panic, out_of_fuel}
use mpc_core.Prelude.Runs.{◌>>=◌, ◌>>◌, lift}
use mpc_core.Network.{ReceiveRequest, SendRequest}
use mpc_core.Mesh.{
  Channel, MeshError, Act, serialization, or_fail, take_channel, restore, enumerate_requests,
}
use mpc_core.Mesh.Tasks.{send_task, receive_task}

-- What is there of the results, `None` where nothing has arrived.
abbrev pub Slots : Type 0 → Type 0
Slots T = List (Option (List T))

-- `results[index].replace(objects)`, with its `assert!`
unfoldable pub place : {T : Type 0} → List (ℕ × List T) → Slots T → Outcome MeshError (Slots T)
place [] results = ok results
place ((index, objects) ∷ chunks) results =
    let rest = place chunks (set results index (some objects)) in
    elim (get_elem? results index) [ some none ↦ rest | some (some prev) ↦ panic | none ↦ panic ]

-- `results.into_iter().collect::<Option<Vec<_>>>().unwrap()`, and the assertion before it
unfoldable pub collect : {T : Type 0} → Slots T → Outcome MeshError (List (List T))
collect [] = ok []
collect (none ∷ slots) = panic
collect (some objects ∷ slots) = elim (collect slots) [
  | ok lists ↦ ok (objects ∷ lists)
  | err e ↦ err e
  | panic ↦ panic
  | out_of_fuel ↦ out_of_fuel
]

module _ {Ch : Type 0} (C : Channel Ch) where
  unfoldable pub restore_sends : List (ℕ × (ℕ × Ch)) → ℕ → Act C ℕ
  unfolding restore
  restore_sends [] send_len = lift (ok send_len)
  restore_sends ((len, (to, channel)) ∷ sent) send_len = do
    restore C to channel
    restore_sends sent (send_len + len)

  unfoldable pub make_receives :
      List (ℕ × List (ℕ × Option ℕ)) → Act C (List (ℕ × (List (ℕ × Option ℕ) × Ch)))
  unfolding take_channel
  make_receives [] = lift (ok [])
  make_receives ((from, counts) ∷ groups) = do
    channel ← take_channel C from
    rest ← make_receives groups
    lift (ok ((from, (counts, channel)) ∷ rest))

module _ {Ch : Type 0} (C : Channel Ch) {T : Type 0} where
  -- The loop over the groups of `send_objects_many`, which takes the channel and encodes the objects; on
  -- a failure the channels that are taken are gone.
  unfoldable pub make_sends :
      (List T → Option (List ℕ)) → List (ℕ × List T) → Act C (List (ℕ × (List ℕ × Ch)))
  unfolding take_channel
  make_sends to_stdvec [] = lift (ok [])
  make_sends to_stdvec ((to, objects) ∷ groups) = do
    channel ← take_channel C to
    bytes ← lift (or_fail serialization (to_stdvec objects))
    rest ← make_sends to_stdvec groups
    lift (ok ((to, (bytes, channel)) ∷ rest))

  -- `group_map` is `into_group_map`, and `join` is `try_join_all`.
  unfoldable pub send_objects_many :
      (List T → Option (List ℕ))
      → (List (ℕ × T) → List (ℕ × List T))
      → (List (Outcome MeshError (ℕ × (ℕ × Ch))) → Outcome MeshError (List (ℕ × (ℕ × Ch))))
      → List (SendRequest T)
      → Act C ℕ
  unfolding make_sends restore_sends send_task
  send_objects_many to_stdvec group_map join requests = do
    tasks ← make_sends to_stdvec (group_map (map (λ r. (r.to, r.payload)) requests))
    sent ← lift (join (map (send_task C) tasks))
    restore_sends C sent 0

  -- The loop over the results of the tasks.
  unfoldable pub restore_receives :
      List (ℕ × (ℕ × (Ch × List (ℕ × List T)))) → Slots T → ℕ → Act C (Slots T × ℕ)
  unfolding restore place
  restore_receives [] results received_len = lift (ok (results, received_len))
  restore_receives ((len, (from, (channel, objects_list))) ∷ received) results received_len = do
    restore C from channel
    placed ← lift (place objects_list results)
    restore_receives received placed (received_len + len)

  unfoldable pub recv_objects_many :
      (List ℕ → Option (List T))
      → (List (ℕ × (ℕ × Option ℕ)) → List (ℕ × List (ℕ × Option ℕ)))
      → (List (Outcome MeshError (ℕ × (ℕ × (Ch × List (ℕ × List T)))))
          → Outcome MeshError (List (ℕ × (ℕ × (Ch × List (ℕ × List T))))))
      → List ReceiveRequest
      → Act C (List (List T) × ℕ)
  unfolding make_receives restore_receives receive_task collect
  recv_objects_many from_bytes group_map join requests = do
    tasks ← make_receives C (group_map (enumerate_requests 0 requests))
    received ← lift (join (map (receive_task C from_bytes) tasks))
    placed ← restore_receives received (replicate (length requests) none) 0
    results ← lift (collect placed.0)
    lift (ok (results, placed.1))
