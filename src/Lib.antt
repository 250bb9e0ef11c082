-- ===== src/Lib.antt =====
-- mpc-core: a framework for secure multiparty computation. A circuit is a list of operations on wires;
-- `MpcCircuit::new` (src/mpc/circuit.rs) sorts it into offline and online rounds, each with local and
-- network operations; `ExecutionContext` (src/mpc/execution.rs) runs the rounds of one player, in the
-- phases handshake, offline, input and online, over a scheme (src/mpc/scheme.rs) and a network
-- (src/networking/network.rs). src/example/additive.rs is a scheme: additive sharing modulo `M`. The
-- network of src/networking/secure_mesh has an encrypted stream to each other player.
--
-- The files:
--   Prelude: outcomes (a value, an error, a panic, or the end of a loop's fuel), methods on `&mut self`
--     as functions from a state to a state and an outcome, hash maps as association lists, lists.
--   Operation: the trait `Operation` and what the circuit builder asks of a scheme (`Gates`).
--   Circuit: the data and accessors of src/mpc/circuit.rs. Circuit.Graph is the block of `new` that finds
--     the producers and counts in-degrees, Circuit.Sort its closure `process_wave`, Circuit.New the
--     function `new`; their child modules prove what the names say.
--   Network, Scheme: the requests, and the traits `Network` and `MpcScheme` as records of functions;
--     Network.Objects has the provided methods of `Network` on objects.
--   Additive: src/example/additive.rs. Additive.Sound is `is_circuit_sound`, and Additive.Sound.Passes is
--     about its loop; Additive.Sharing and Additive.Phases are about the two phases of an operation;
--     Additive.Instance is the scheme as the executor takes it, and Additive.RunTests and
--     Additive.SequenceTests run it.
--     Additive.Joint lets all players do the operations one after the other, reading and writing wires as
--     `do_network_operations` does for one operation, each value that is sent arriving where it is sent to;
--     beside it stands an evaluation on plain values. Joint.Totals, Joint.Messages, Joint.Agree,
--     Joint.Operations and Joint.Exchanges lead to Joint.Correct, which relates the two;
--     Joint.Arrivals takes the same operations through the scheme as Execution.Sequence calls it.
--   Execution: the data of src/mpc/execution.rs; Execution.Rounds has `do_local_operations` and
--     `do_network_operations`, Execution.Methods the public methods; Execution.Keeps, Execution.Order,
--     Execution.Inputs and Execution.Prepare are about the state machine and the user's inputs.
--     Execution.Contract is what the executor relies on in a scheme and a network; Execution.Wires, Outputs,
--     Operations, Complete, Stages, Handshake and Whole go from one operation to a run of all methods. Execution.Sequence has operations
--     done one after the other on a context and wires alone, which the executor's rounds are compared with;
--     Sequence.Steps, Sequence.Batches and Sequence.Local take the executor's steps and loops apart for
--     Sequence.Rounds; Sequence.Same and Sequence.Shakes do so for the methods and for `handshake`, and
--     Sequence.Methods goes on to a run of all of them.
--   SecureStream: src/networking/secure_mesh/secure_stream.rs. SecureStream.Bytes is about its integers,
--     SecureStream.Frames about messages from one end to the other, SecureStream.Counters about the nonce
--     counters, SecureStream.Nonces about the nonces of both ends of a session, SecureStream.Handshake has
--     `perform_handshake`.
--   Mesh: src/networking/secure_mesh/mesh_network.rs, `send`, `recv`, `broadcast`. Mesh.Tasks has the tasks
--     and Mesh.Objects the two calls that join them; Mesh.Channels, Mesh.Send, Mesh.Slots, Mesh.Requests and
--     Mesh.Receive are about these. Mesh.Broadcast is about `broadcast`. Mesh.Connect has
--     `from_identities`, and Mesh.Peers is about it.
--   Identity: src/networking/secure_mesh/identity.rs.
--
-- Numbers: wires, players, indices and lengths are natural numbers. The `u64` additions of the additive
-- scheme are checked against `2 ^ 64`, and its subtraction and the in-degrees' against 0, as in a build
-- with overflow checks; a failure is a panic, like a failed `unwrap`, `expect`, `assert!` or index. The
-- counters of a stream are checked in the same way, and the length of a frame is cut to four bytes.
--
-- Fuel: each loop of `process_wave` gets one more round than there are operations, and so does the outer
-- loop; an operation is popped at most once in a phase, since it is pushed when its in-degree falls to 0.
-- A pass of `is_circuit_sound` that changes something types a wire for the first time if operations with
-- the same output are the same, so that one more pass than there are operations is enough then. A
-- connector's attempts are a list, and its end stands for attempts that never succeed.
--
-- Parameters: the scheme and the network of the executor, the digest of a circuit (`postcard` and SHA-3),
-- the values drawn by random generators, the byte transport (tokio), the cipher (chacha20poly1305), keys
-- and signatures (x25519-dalek, ed25519-dalek), the encodings of objects (`postcard`) and keys (base64),
-- `into_group_map` (itertools) and `try_join_all` (futures). What is relied on of them is a record of laws:
-- `IsContract`, `IsFinal` and `IsHonest`, `IsReliable`, `IsAead`, `AreCurves`, `AreCodecs`, `IsGroupMap`, `IsTryJoin`.
-- Functions of a scheme are taken to return; in the instance of the additive scheme an `is_circuit_sound`
-- whose loop does not end counts as a refusal. The messages of errors are left out. `MaybeUninit` is an
-- option, and reading it uninitialised is a panic here. A task of `try_join_all` owns its channel, so the
-- order in which tasks run does not show in the model.
--
-- Not modelled: `dump_wires_with_filter`, which prints, and the module declarations.
pub mod Prelude
pub mod Operation
pub mod Network
pub mod Circuit
pub mod Scheme
pub mod Additive
pub mod Execution
pub mod SecureStream
pub mod Mesh
pub mod Identity
