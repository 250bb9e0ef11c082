-- ===== src/Network/Objects/Tests.antt =====
-- src/networking/network.rs: a network that answers with the player's id.
use mpc_core.Prelude.{ℕ, some, none, [], ◌∷◌, ok}
use mpc_core.Execution.Contract.{Safe}
use mpc_core.Network.Objects.{
  ByteNetwork, Encoding, recv_object, recv_objects, IsAnswer, recv_object-IsAnswer,
}

abbrev echoing : ByteNetwork ℕ
echoing = record {
  send = λ to bytes net. (net, ok 1);
  broadcast = λ bytes net. (net, ok 1);
  recv = λ from net. (net, ok (from ∷ [], 1));
}

abbrev raw : Encoding ℕ
raw = record { to_stdvec = λ xs. some xs; from_bytes = λ xs. some xs }

recv_object-IsAnswer_example :
    Safe (λ r t. IsAnswer echoing raw 5 2 none r.0 t) (recv_objects echoing raw 2 none 5)
    × Safe (λ r t. IsAnswer echoing raw 5 2 (some 1) (r.0 ∷ []) t) (recv_object echoing raw 2 5)
recv_object-IsAnswer_example = recv_object-IsAnswer echoing raw 2 none 5 tt
