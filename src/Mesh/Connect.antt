-- ===== src/Mesh/Connect.antt =====
-- src/networking/secure_mesh/mesh_network.rs: `from_identities`, which connects to the players below
-- `my_id` and waits for those above. What the accepts and the connects of TCP give is in lists, and so
-- are the drawn secrets; the end of a connector's list stands for attempts that never succeed.
use mpc_core.Prelude.{ℕ, zero, suc, ◌-◌, Option, none, some, List, [], ◌∷◌, length, map, is_some}
use mpc_core.Prelude.{
  get_elem?, set, replicate, Outcome, ok, err, panic, out_of_fuel, ◌>>=◌, unwrap, assert, not,
  if◌then◌else◌, ltb,
}
use mpc_core.SecureStream.{
  SecureStream, Transport, Cipher, listener, initiator, to_be_bytes, from_be_bytes,
}
use mpc_core.SecureStream.Handshake.{Curves, perform_handshake}
use mpc_core.Mesh.{MeshNetwork}

pub data ConnectError : Type 0 where
  io_error : ConnectError
  duplicate_connection unexpected_connection : ℕ → ConnectError

abbrev pub io : {A : Type 0} → Outcome (Unit {0}) A → Outcome ConnectError A
io (ok a) = ok a
io (err e) = err io_error
io panic = panic
io out_of_fuel = out_of_fuel

-- `loop { match try_establish.await … }` on the outcomes of the attempts
unfoldable pub keep_trying : {A : Type 0} → List (Outcome (Unit {0}) A) → Outcome ConnectError A
keep_trying [] = out_of_fuel
keep_trying (attempt ∷ attempts) =
    let rest = keep_trying attempts in
    elim attempt [ ok a ↦ ok a | err e ↦ rest | panic ↦ panic | out_of_fuel ↦ out_of_fuel ]

module _ {Ch : Type 0} where
  -- What the listener does with the connection of a player, after the handshake.
  unfoldable pub add_connection :
      ℕ → ℕ → Ch → List (Option Ch) → Outcome ConnectError (List (Option Ch))
  add_connection my_id peer_id channel connections =
      unwrap (get_elem? connections peer_id) >>= λ prev.
      (if is_some prev then err (duplicate_connection peer_id) else ok tt) >>= λ _.
      (if ltb peer_id my_id then err (unexpected_connection peer_id) else ok tt) >>= λ _.
      ok (set connections peer_id (some channel))

  -- The last loop, over the connectors' results, which are for the targets from `target` on.
  unfoldable pub merge :
      ℕ → ℕ → List Ch → List (Option Ch) → Outcome ConnectError (List (Option Ch))
  merge my_id target [] connections = ok connections
  merge my_id target (channel ∷ channels) connections =
      let rest = merge my_id (suc target) channels (set connections target (some channel)) in
      assert (ltb target my_id) >>= λ _.
      unwrap (get_elem? connections target) >>= λ prev. assert (not (is_some prev)) >>= λ _. rest

module _ {Inner Key : Type 0} (T : Transport Inner) (C : Cipher Key) (X : Curves Key) where
  abbrev Secure : Type 0
  Secure = SecureStream Inner Key

  -- A connection that the listener accepts: the player that it claims to be from, and its channel.
  unfoldable pub welcome :
      List ℕ → List (List ℕ) → List ℕ → Inner → Outcome ConnectError (ℕ × Secure)
  unfolding from_be_bytes perform_handshake
  welcome my_secret_key identities secret stream = io (T.read_exact stream 8).1 >>= λ id_buf.
      unwrap (get_elem? identities (from_be_bytes 0 id_buf)) >>= λ peer_verifying_key.
      io
        (perform_handshake T C X secret my_secret_key peer_verifying_key listener
          (T.read_exact stream 8).0).1
      >>= λ secure_stream. ok (from_be_bytes 0 id_buf, secure_stream)

  -- `for _ in 0..expected_incoming`, with the rounds that are left; each accept comes with the secret that
  -- the handshake draws, and the end of the list stands for a connection that never comes.
  unfoldable pub listen :
      ℕ
      → ℕ
      → List ℕ
      → List (List ℕ)
      → List (Outcome (Unit {0}) Inner × List ℕ)
      → List (Option Secure)
      → Outcome ConnectError (List (Option Secure))
  unfolding welcome add_connection
  listen zero my_id my_secret_key identities incoming connections = ok connections
  listen (suc left) my_id my_secret_key identities [] connections = out_of_fuel
  listen (suc left) my_id my_secret_key identities ((accepted, secret) ∷ incoming) connections =
      io accepted >>= λ stream. welcome my_secret_key identities secret stream >>= λ guest.
      add_connection my_id guest.0 guest.1 connections >>= λ next.
      listen left my_id my_secret_key identities incoming next

  -- An attempt to connect, after `TcpStream::connect`
  unfoldable pub try_establish :
      ℕ → List ℕ → List ℕ → List ℕ → Outcome (Unit {0}) Inner → Outcome (Unit {0}) Secure
  unfolding to_be_bytes perform_handshake
  try_establish my_id my_secret_key target_verifying_key secret connected = connected >>= λ stream.
      (T.write_all stream (to_be_bytes 8 my_id)).1 >>= λ _.
      (perform_handshake T C X secret my_secret_key target_verifying_key initiator
        (T.write_all stream (to_be_bytes 8 my_id)).0).1

  -- The connectors of the targets from `target` on, each with its attempts.
  unfoldable pub connect :
      ℕ
      → List ℕ
      → List (List ℕ)
      → ℕ
      → List (List (Outcome (Unit {0}) Inner × List ℕ))
      → Outcome ConnectError (List Secure)
  unfolding keep_trying try_establish
  connect my_id my_secret_key identities target [] = ok []
  connect my_id my_secret_key identities target (attempts ∷ others) =
      unwrap (get_elem? identities target) >>= λ key.
      keep_trying (map (λ a. try_establish my_id my_secret_key key a.1 a.0) attempts) >>= λ channel.
      connect my_id my_secret_key identities (suc target) others >>= λ channels.
      ok (channel ∷ channels)

  -- `identities` are the public keys, `incoming` the accepts, and `outgoing` has a list of attempts for each
  -- target below `my_id`. Both sides are waited for before either is looked at.
  unfoldable pub from_identities :
      ℕ
      → List ℕ
      → List (List ℕ)
      → Outcome (Unit {0}) (Unit {0})
      → List (Outcome (Unit {0}) Inner × List ℕ)
      → List (List (Outcome (Unit {0}) Inner × List ℕ))
      → Outcome ConnectError (MeshNetwork Secure)
  unfolding listen connect merge
  from_identities my_id my_secret_key identities bound incoming outgoing =
      unwrap (get_elem? identities my_id) >>= λ identity. io bound >>= λ _.
      connect my_id my_secret_key identities 0 outgoing >>= λ channels.
      listen (length identities - 1 - my_id) my_id my_secret_key identities incoming
        (replicate (length identities) none)
      >>= λ connections. merge my_id 0 channels connections >>= λ channels.
          ok (record { my_id = my_id; n_parties = length identities; channels = channels })
