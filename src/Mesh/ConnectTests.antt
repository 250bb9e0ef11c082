-- ===== src/Mesh/ConnectTests.antt =====
-- src/networking/secure_mesh/mesh_network.rs: player 1 of 3 connects to player 0 at the second attempt
-- and accepts player 2.
use mpc_core.Prelude.{
  ℕ, ◌≡◌, ◌≤◌, ◌<◌, refl, true, Option, none, some, List, [], ◌∷◌, ◌++◌, length, replicate,
  get_elem?, Outcome, ok, err, arith,
}
use mpc_core.Prelude.Runs.{◌>>=◌, lift, gets}
use mpc_core.SecureStream.{
  SecureStream, listener, initiator, secure_stream, to_be_bytes, from_be_bytes,
}
use mpc_core.SecureStream.Handshake.{perform_handshake}
use mpc_core.SecureStream.Tests.{Pipe, pipe, tagging, toy_curves}
use mpc_core.Mesh.{MeshNetwork}
use mpc_core.Mesh.Channels.{is_open}
use mpc_core.Mesh.Connect.{listen, connect, from_identities}
use mpc_core.Mesh.Peers.{from_identities-Opens}

abbrev identities : List (List ℕ)
identities = (4 ∷ []) ∷ (5 ∷ []) ∷ (6 ∷ []) ∷ []

abbrev incoming : List (Outcome (Unit {0}) Pipe × List ℕ)
incoming = (ok ([], (replicate 7 0 ++ 2 ∷ []) ++ (replicate 32 8 ++ replicate 64 6)), 3 ∷ []) ∷ []

abbrev outgoing : List (List (Outcome (Unit {0}) Pipe × List ℕ))
outgoing = ((err tt, 2 ∷ []) ∷ (ok ([], replicate 32 8 ++ replicate 64 4), 3 ∷ []) ∷ []) ∷ []

abbrev channels : List (SecureStream Pipe ℕ)
channels =
    secure_stream pipe tagging ((replicate 7 0 ++ 1 ∷ []) ++ (replicate 32 3 ++ replicate 64 5), [])
      11 initiator
    ∷ []

abbrev connections : List (Option (SecureStream Pipe ℕ))
connections =
    none
    ∷ none
    ∷ some (secure_stream pipe tagging (replicate 32 3 ++ replicate 64 5, []) 11 listener)
    ∷ []

connected : connect pipe tagging toy_curves 1 (5 ∷ []) identities 0 outgoing ≡ ok channels
unfolding connect perform_handshake to_be_bytes ◌>>=◌ lift gets
connected = refl

listened :
    listen pipe tagging toy_curves 1 1 (5 ∷ []) identities incoming (replicate 3 none)
    ≡ ok connections
unfolding listen perform_handshake from_be_bytes ◌>>=◌ lift gets
listened = refl

from_identities-Opens_example :
    (mesh : MeshNetwork (SecureStream Pipe ℕ)) × (from_identities pipe tagging toy_curves 1
        (5 ∷ [])
        identities
        (ok tt)
        incoming
        outgoing
      ≡ ok mesh)
    × (mesh.my_id ≡ 1)
    × (length mesh.channels ≡ length identities)
    × ((p : ℕ) → p < 1 → is_open (get_elem? mesh.channels p) ≡ true)
    × ((p : ℕ) → 1 ≤ p → get_elem? mesh.channels p ≡ get_elem? connections p)
from_identities-Opens_example =
    from_identities-Opens pipe tagging toy_curves 1 (5 ∷ []) identities incoming outgoing channels
      connections (omega arith) refl connected listened
