-- ===== src/SecureStream/Tests.antt =====
-- src/networking/secure_mesh/secure_stream.rs: two ends over a pipe, with a cipher and curves that only
-- have the shape of the real ones, and uses of the theorems at concrete inputs.
use mpc_core.Prelude.{ℕ, ◌+◌, ◌-◌, ◌≡◌, refl, ◌∙◌, ap, true, false, List, [], ◌∷◌, ◌++◌}
use mpc_core.Prelude.{length, length-append, take, drop, replicate, get_or, map, ok, err}
use mpc_core.Prelude.{arith, ltb, ◌==◌, ==_refl, if◌then◌else◌}
use mpc_core.SecureStream.{
  Transport, Cipher, SecureStream, listener, initiator, secure_stream, send, recv,
}
use mpc_core.Prelude.Runs.{◌>>=◌, lift, gets, modify}
use mpc_core.SecureStream.Nonces.{
  Call, sending, receiving, perform_all, Encrypts, AreDistinct, perform_all-AreDistinct,
}
use mpc_core.SecureStream.Frames.{
  IsReliable, IsAead, ArePaired, send_all, recv_all, frame_len, send_all-recv_all,
}
use mpc_core.SecureStream.Counters.{Leaves, send-Leaves, recv-Leaves}
use mpc_core.SecureStream.Handshake.{
  Curves, AreCurves, perform_handshake, perform_handshake-verified,
}
use mpc_core.SecureStream.Handshake.{perform_handshake-ArePaired}

-- The bytes written, and those that can be read.
abbrev pub Pipe : Type 0
Pipe = List ℕ × List ℕ

abbrev pub pipe : Transport Pipe
pipe = record {
  write_all = λ s bytes. ((s.0 ++ bytes, s.1), ok tt);
  read_exact =
      λ s n. if ltb (length s.1) n then (s, err tt) else ((s.0, drop n s.1), ok (take n s.1));
}

take-append : (xs ys : List ℕ) → take (length xs) (xs ++ ys) ≡ xs
take-append [] ys = refl
take-append (x ∷ xs) ys = ap (λ l. x ∷ l) (take-append xs ys)

drop-append : (xs ys : List ℕ) → drop (length xs) (xs ++ ys) ≡ ys
drop-append [] ys = refl
drop-append (x ∷ xs) ys = drop-append xs ys

pipe_reads :
    (s : Pipe) (bytes rest : List ℕ)
    → s.1 ≡ bytes ++ rest
    → pipe.read_exact s (length bytes) ≡ ((s.0, rest), ok bytes)
pipe_reads s bytes rest e =
    let enough : ltb (length (bytes ++ rest)) (length bytes) ≡ false =
      ground (arith, length-append bytes rest) in
    rw (e, enough, take-append bytes rest, drop-append bytes rest) refl

abbrev pipe-IsReliable : IsReliable pipe
pipe-IsReliable = record {
  written = λ s. s.0;
  readable = λ s. s.1;
  writes = λ s bytes. ((s.0 ++ bytes, s.1), refl, refl, refl);
  reads = λ s bytes rest e. ((s.0, rest), pipe_reads s bytes rest e, refl, refl);
}

abbrev pub tagging : Cipher ℕ
tagging = record {
  encrypt_in_place = λ key nonce header message. ok (message ++ replicate 16 key);
  decrypt_in_place = λ key nonce header sealed. ok (take (length sealed - 16) sealed);
}

tagged_length :
    (message : List ℕ) (key : ℕ) → length (message ++ replicate 16 key) ≡ length message + 16
tagged_length message key = omega (arith, length-append message (replicate 16 key))

untags :
    (message : List ℕ) (key : ℕ)
    → take (length (message ++ replicate 16 key) - 16) (message ++ replicate 16 key) ≡ message
untags message key =
    let n : length (message ++ replicate 16 key) - 16 ≡ length message =
      omega (arith, tagged_length message key) in
    ap (λ k. take k (message ++ replicate 16 key)) n ∙ take-append message (replicate 16 key)

tagging-IsAead : IsAead tagging
tagging-IsAead = record {
  seals = λ key nonce header message short.
      (message ++ replicate 16 key, refl, tagged_length message key, ap ok (untags message key));
}

abbrev pub first : List ℕ → ℕ
first bytes = get_or bytes 0 0

abbrev pub toy_curves : Curves ℕ
toy_curves = record {
  public_of = λ secret. replicate 32 (first secret);
  diffie_hellman = λ secret public. first secret + first public;
  sign = λ identity payload. replicate 64 (first identity);
  verify = λ identity payload signature. first signature == first identity;
  verifying_key = λ identity. identity;
}

toy-AreCurves : AreCurves toy_curves
toy-AreCurves = record {
  length-public_of = λ secret. refl;
  length-sign = λ identity payload. refl;
  agrees = λ a b. omega arith;
  verifies = λ identity payload. ==_refl (first identity);
}

abbrev sender : SecureStream Pipe ℕ
sender = secure_stream pipe tagging ([], []) 9 initiator

abbrev two_messages : List (List ℕ)
two_messages = (1 ∷ 2 ∷ []) ∷ (3 ∷ []) ∷ []

-- What `sender` writes for the two messages.
abbrev sent_bytes : List ℕ
sent_bytes = (0 ∷ 0 ∷ 0 ∷ 18 ∷ 1 ∷ 2 ∷ replicate 16 9) ++ (0 ∷ 0 ∷ 0 ∷ 17 ∷ 3 ∷ replicate 16 9)

abbrev receiver : SecureStream Pipe ℕ
receiver = secure_stream pipe tagging ([], sent_bytes) 9 listener

send_all-recv_all_example :
    (t : SecureStream Pipe ℕ) × (bytes : List ℕ) × (send_all pipe tagging two_messages sender
      ≡ (t, ok (map frame_len two_messages)))
    × (t.inner.0 ≡ bytes)
    × (sent_bytes ≡ bytes ++ []
        → (u : SecureStream Pipe ℕ) × (recv_all pipe tagging 2 receiver
            ≡ (u, ok (map (λ m. (m, frame_len m)) two_messages)))
          × (u.inner.1 ≡ [])
          × ArePaired t u)
send_all-recv_all_example =
    send_all-recv_all pipe tagging pipe-IsReliable tagging-IsAead two_messages sender receiver []
      (record { keys = refl; roles = refl; counters = refl }) (omega arith) (omega arith)

-- `sender` sends, waits in vain for an answer, and sends again; `receiver` answers and then receives.
abbrev initiator_calls : List Call
initiator_calls = sending (1 ∷ 2 ∷ []) ∷ receiving ∷ sending (3 ∷ []) ∷ []

abbrev listener_calls : List Call
listener_calls = sending (7 ∷ []) ∷ receiving ∷ []

abbrev sender_after : SecureStream Pipe ℕ
sender_after = (perform_all pipe tagging initiator_calls sender).0

abbrev receiver_after : SecureStream Pipe ℕ
receiver_after = (perform_all pipe tagging listener_calls receiver).0

sender_runs : perform_all pipe tagging initiator_calls sender ≡ (sender_after, ok tt)
unfolding perform_all ◌>>=◌ lift gets modify
sender_runs = refl

receiver_runs : perform_all pipe tagging listener_calls receiver ≡ (receiver_after, ok tt)
unfolding perform_all ◌>>=◌ lift gets modify
receiver_runs = refl

perform_all-AreDistinct_example :
    (xs : List (List ℕ)) × (ys : List (List ℕ)) × Encrypts pipe tagging 9 initiator_calls sender xs
      sender_after
    × Encrypts pipe tagging 9 listener_calls receiver ys receiver_after
    × AreDistinct (xs ++ ys)
perform_all-AreDistinct_example =
    perform_all-AreDistinct pipe tagging 9 initiator ([], []) ([], sent_bytes) initiator_calls
      listener_calls sender_after receiver_after sender_runs receiver_runs

send-Leaves_example : Leaves true false sender (send pipe tagging (5 ∷ []) sender)
send-Leaves_example = send-Leaves pipe tagging (5 ∷ []) sender

recv-Leaves_example : Leaves false true receiver (recv pipe tagging receiver)
recv-Leaves_example = recv-Leaves pipe tagging receiver

abbrev alice : Pipe
alice = ([], replicate 32 4 ++ (replicate 64 6 ++ []))

abbrev bob : Pipe
bob = ([], replicate 32 3 ++ (replicate 64 5 ++ []))

perform_handshake-ArePaired_example :
    (s : SecureStream Pipe ℕ) × (r : SecureStream Pipe ℕ) × (perform_handshake pipe tagging
        toy_curves
        (3 ∷ [])
        (5 ∷ [])
        (6 ∷ [])
        initiator
        alice
      ≡ (s.inner, ok s))
    × (perform_handshake pipe tagging toy_curves (4 ∷ []) (6 ∷ []) (5 ∷ []) listener bob
        ≡ (r.inner, ok r))
    × (s.inner.0 ≡ [] ++ (replicate 32 3 ++ replicate 64 5))
    × (r.inner.0 ≡ [] ++ (replicate 32 4 ++ replicate 64 6))
    × (s.inner.1 ≡ [])
    × (r.inner.1 ≡ [])
    × ArePaired s r
    × ArePaired r s
perform_handshake-ArePaired_example =
    perform_handshake-ArePaired pipe tagging toy_curves pipe-IsReliable toy-AreCurves (3 ∷ [])
      (4 ∷ []) (5 ∷ []) (6 ∷ []) [] [] initiator alice bob refl refl

abbrev echoed : Pipe
echoed = ([], replicate 32 3 ++ (replicate 64 5 ++ []))

accepted : perform_handshake pipe tagging toy_curves (3 ∷ []) (5 ∷ []) (6 ∷ []) initiator alice ≡ (
  (replicate 32 3 ++ replicate 64 5, []),
  ok (secure_stream pipe tagging (replicate 32 3 ++ replicate 64 5, []) 7 initiator),
)
unfolding perform_handshake ◌>>=◌ lift gets
accepted = refl

perform_handshake-verified_example :
    (a : Pipe) × (b : Pipe) × (c : Pipe) × (peer_public : List ℕ) × (signature : List ℕ)
    × (pipe.write_all alice (replicate 32 3) ≡ (a, ok tt))
    × (pipe.read_exact a 32 ≡ (b, ok peer_public))
    × (pipe.write_all b (replicate 64 5) ≡ (c, ok tt))
    × (pipe.read_exact c 64 ≡ ((replicate 32 3 ++ replicate 64 5, []), ok signature))
    × (toy_curves.verify (6 ∷ []) (peer_public ++ replicate 32 3) signature ≡ true)
    × (secure_stream pipe tagging (replicate 32 3 ++ replicate 64 5, []) 7 initiator
        ≡ secure_stream pipe tagging
            (replicate 32 3 ++ replicate 64 5, [])
            (toy_curves.diffie_hellman (3 ∷ []) peer_public)
            initiator)
perform_handshake-verified_example =
    perform_handshake-verified pipe tagging toy_curves (3 ∷ []) (5 ∷ []) (6 ∷ []) initiator alice
      (replicate 32 3 ++ replicate 64 5, [])
      (secure_stream pipe tagging (replicate 32 3 ++ replicate 64 5, []) 7 initiator) accepted
