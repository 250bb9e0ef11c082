-- ===== src/Mesh.antt =====
-- src/networking/secure_mesh/mesh_network.rs: a network with a channel to each other player. The
-- grouping of a list by keys (itertools), the joining of tasks (futures) and the encoding of objects
-- (postcard) are parameters. The tasks of a call own their channels, so each has an outcome of its own.
pub mod Tasks
pub mod Objects
pub mod Channels
pub mod Send
pub mod Slots
pub mod Requests
pub mod Receive
pub mod Connect
pub mod Peers
pub mod Broadcast
pub mod ConnectTests
pub mod Tests
use mpc_core.Prelude.{
  ℕ, zero, suc, ◌+◌, Bool, true, false, not, Option, none, some, List, [], ◌∷◌, ◌++◌, length, map,
}
use mpc_core.Prelude.{
  get_elem?, set, take, drop, replicate, Outcome, ok, err, panic, out_of_fuel, unwrap, assert,
  is_some, if◌then◌else◌, ltb, ◌==◌,
}
use mpc_core.Prelude.Runs.{Run, ◌>>=◌, ◌>>◌, lift, gets, modify}
use mpc_core.Network.{ReceiveRequest, SendRequest, expected}
use mpc_core.Execution.Methods.{range_from}
use mpc_core.SecureStream
use mpc_core.SecureStream.{SecureStream, Transport, Cipher}

-- What a call fails with; the texts of the messages are left out.
pub data MeshError : Type 0 where
  invalid_party not_connected : MeshError
  unavailable : ℕ → MeshError
  send_failure recv_failure serialization deserialization too_few left_over : MeshError

-- The calls of a channel: the channel after the call, and the bytes on the wire.
pub record Channel (Ch : Type 0) : Type 0 where
  pub send : Ch → List ℕ → Ch × Outcome (Unit {0}) ℕ
  pub recv : Ch → Ch × Outcome (Unit {0}) (List ℕ × ℕ)

-- The channels of the mesh are secure streams.
abbrev pub secure_channel :
    {Inner Key : Type 0} → Transport Inner → Cipher Key → Channel (SecureStream Inner Key)
secure_channel T C = record {
  send = λ s payload. SecureStream.send T C payload s;
  recv = λ s. SecureStream.recv T C s;
}

pub record MeshNetwork (Ch : Type 0) : Type 0 where
  pub my_id : ℕ
  pub n_parties : ℕ
  pub channels : List (Option Ch)

-- `map_err`
abbrev pub io_failure : {A : Type 0} → MeshError → Outcome (Unit {0}) A → Outcome MeshError A
io_failure e (ok a) = ok a
io_failure e (err _) = err e
io_failure e panic = panic
io_failure e out_of_fuel = out_of_fuel

abbrev pub or_fail : {A : Type 0} → MeshError → Option A → Outcome MeshError A
or_fail e none = err e
or_fail e (some a) = ok a

-- `request.into_iter().enumerate()` with the keys of the groups
abbrev pub enumerate_requests : ℕ → List ReceiveRequest → List (ℕ × (ℕ × Option ℕ))
enumerate_requests index [] = []
enumerate_requests index (r ∷ rs) = (r.from, (index, r.count)) ∷ enumerate_requests (suc index) rs

module _ {Ch : Type 0} (C : Channel Ch) where
  abbrev pub Mesh : Type 0
  Mesh = MeshNetwork Ch

  abbrev pub Act : Type 0 → Type 0
  Act A = Run Mesh MeshError A

  unfoldable pub get_channel : ℕ → Mesh → Outcome MeshError Ch
  get_channel target s =
      if ltb target s.n_parties
      then (elim (get_elem? s.channels target) [
        | none ↦ panic
        | some none ↦ err not_connected
        | some (some channel) ↦ ok channel
      ])
      else err invalid_party

  -- A call of the channel to a player, which may change it.
  unfoldable pub call_channel :
      {A : Type 0} → MeshError → ℕ → (Ch → Ch × Outcome (Unit {0}) A) → Act A
  unfolding get_channel
  call_channel failure target f = do
    found ← gets (get_channel target)
    channel ← lift found
    modify (λ s. record s { channels = set s.channels target (some (f channel).0) })
    lift (io_failure failure (f channel).1)

  unfoldable pub send : ℕ → List ℕ → Act ℕ
  unfolding call_channel
  send to payload = call_channel send_failure to (λ channel. C.send channel payload)

  unfoldable pub recv : ℕ → Act (List ℕ × ℕ)
  unfolding call_channel
  recv from = call_channel recv_failure from C.recv

  -- The loop of `broadcast`, from the bytes sent so far.
  unfoldable pub broadcast_to : List ℕ → List ℕ → ℕ → Act ℕ
  unfolding send
  broadcast_to [] payload total = lift (ok total)
  broadcast_to (to ∷ others) payload total = do
    my_id ← gets (λ s. s.my_id)
    len ← if to == my_id then lift (ok 0) else send to payload
    broadcast_to others payload (total + len)

  unfoldable pub broadcast : List ℕ → Act ℕ
  unfolding broadcast_to
  broadcast payload = do
    n_parties ← gets (λ s. s.n_parties)
    broadcast_to (range_from 0 n_parties) payload 0

  -- `self.channels.get_mut(from).and_then(Option::take)`
  unfoldable pub take_channel : ℕ → Act Ch
  take_channel from s = elim (get_elem? s.channels from) [
    | some (some channel) ↦ (record s { channels = set s.channels from none }, ok channel)
    | some none ↦ (s, err (unavailable from))
    | none ↦ (s, err (unavailable from))
  ]

  -- `assert!(self.channels[from].is_none()); self.channels[from] = Some(channel)`
  unfoldable pub restore : ℕ → Ch → Act (Unit {0})
  restore from channel = do
    slot ← gets (λ s. get_elem? s.channels from)
    held ← lift (unwrap slot)
    lift (assert (not (is_some held)))
    modify (λ s. record s { channels = set s.channels from (some channel) })
