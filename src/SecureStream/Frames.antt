-- ===== src/SecureStream/Frames.antt =====
-- src/networking/secure_mesh/secure_stream.rs: what one end sends, the other end receives, in order.
use mpc_core.Prelude.{ℕ, zero, suc, ◌+◌, ◌^◌, ◌<◌, ◌≡◌, refl, ◌∙◌, sym, ap, Bool, true, false}
use mpc_core.Prelude.{List, [], ◌∷◌, ◌++◌, length, arith, Outcome, ok}
use mpc_core.Prelude.{ltb, ◌==◌, append_assoc, append-nil, map, All}
use mpc_core.Prelude.Runs.{◌>>=◌, lift, gets, modify}
use mpc_core.SecureStream.{
  to_be_bytes, from_be_bytes, nonce_bytes, is_listener, is_initiator, ConnectionRole, listener,
  initiator,
}
use mpc_core.SecureStream.{
  Transport, Cipher, SecureStream, send, recv, call_inner, count_send, count_recv, next_counter,
}
use mpc_core.SecureStream.Bytes.{length-to_be_bytes, from_be_bytes-to_be_bytes, capacity_four}

-- What a transport promises: it appends what is written to one sequence of bytes, and reads from
-- another one as long as that has enough bytes.
pub record IsReliable {Inner : Type 0} (T : Transport Inner) : Type 0 where
  pub written : Inner → List ℕ
  pub readable : Inner → List ℕ
  pub writes :
      (s : Inner) (bytes : List ℕ)
      → (t : Inner) × (T.write_all s bytes ≡ (t, ok tt))
        × (written t ≡ written s ++ bytes)
        × (readable t ≡ readable s)
  pub reads :
      (s : Inner) (bytes rest : List ℕ)
      → readable s ≡ bytes ++ rest
      → (t : Inner) × (T.read_exact s (length bytes) ≡ (t, ok bytes))
        × (readable t ≡ rest)
        × (written t ≡ written s)

-- What a cipher promises: what it encrypts is 16 bytes longer, and decrypts to the message.
pub record IsAead {Key : Type 0} (C : Cipher Key) : Type 0 where
  pub seals :
      (key : Key) (nonce header message : List ℕ)
      → length message + 16 < 2 ^ 32
      → (sealed : List ℕ) × (C.encrypt_in_place key nonce header message ≡ ok sealed)
        × (length sealed ≡ length message + 16)
        × (C.decrypt_in_place key nonce header sealed ≡ ok message)

abbrev pub peer : ConnectionRole → ConnectionRole
peer listener = initiator
peer initiator = listener

-- The two ends of a session, for the messages of one direction: after as many sent as received.
pub record ArePaired {Inner Key : Type 0} (s r : SecureStream Inner Key) : Type 0 where
  pub keys : s.cipher ≡ r.cipher
  pub roles : s.role ≡ peer r.role
  pub counters : s.send_counter ≡ r.recv_counter

-- The direction that `recv` takes a nonce of is the peer's.
from_peer : (role : ConnectionRole) → is_initiator role ≡ is_listener (peer role)
from_peer listener = refl
from_peer initiator = refl

abbrev pub frame_len : List ℕ → ℕ
frame_len message = 4 + (length message + 16)

module _ {Inner Key : Type 0} (T : Transport Inner) (C : Cipher Key) where
  -- Messages sent one after the other, and as many received.
  unfoldable pub send_all :
      List (List ℕ) → SecureStream Inner Key → SecureStream Inner Key × Outcome (Unit {0}) (List ℕ)
  send_all [] = lift (ok [])
  send_all (message ∷ messages) = do
    len ← send T C message
    lens ← send_all messages
    lift (ok (len ∷ lens))

  unfoldable pub recv_all :
      ℕ → SecureStream Inner Key → SecureStream Inner Key × Outcome (Unit {0}) (List (List ℕ × ℕ))
  recv_all zero = lift (ok [])
  recv_all (suc n) = do first ← recv T C; others ← recv_all n; lift (ok (first ∷ others))

module _ {Inner Key : Type 0} (T : Transport Inner) (C : Cipher Key) (R : IsReliable T)
    (A : IsAead C) where
  -- The bytes of a message: its length, and the message sealed under the nonce.
  pub record IsFrame (key : Key) (nonce message frame : List ℕ) : Type 0 where
    pub sealed : List ℕ
    pub framed : frame ≡ to_be_bytes 4 (length message + 16) ++ sealed
    pub size : length sealed ≡ length message + 16
    pub short : length message + 16 < 2 ^ 32
    pub opens :
        C.decrypt_in_place key nonce (to_be_bytes 4 (length message + 16)) sealed ≡ ok message

  abbrev pub sent_to : SecureStream Inner Key → Inner → SecureStream Inner Key
  sent_to s inner = record s { inner = inner; send_counter = s.send_counter + 1 }

  abbrev pub received_from : SecureStream Inner Key → Inner → SecureStream Inner Key
  received_from s inner = record s { inner = inner; recv_counter = s.recv_counter + 1 }

  send_lem :
      (s : SecureStream Inner Key) (message : List ℕ)
      → s.send_counter + 1 < 2 ^ 64
      → length message + 16 < 2 ^ 32
      → (inner : Inner) × (frame : List ℕ) × (send T C message s
          ≡ (sent_to s inner, ok (4 + (length message + 16))))
        × (R.written inner ≡ R.written s.inner ++ frame)
        × (R.readable inner ≡ R.readable s.inner)
        × IsFrame s.cipher (nonce_bytes (is_listener s.role) s.send_counter) message frame
  unfolding send ◌>>=◌ lift gets modify call_inner count_send
  send_lem s message room short =
      let header = to_be_bytes 4 (length message + 16) in
      let (sealed, seals, size, opens) =
        A.seals s.cipher (nonce_bytes (is_listener s.role) s.send_counter) header message short in
      let (one, writes_one, after_one, same_one) = R.writes s.inner header in
      let (two, writes_two, after_two, same_two) = R.writes one sealed in
      let fits : (length sealed == length message + 16) ≡ true = ground arith in
      let counts : next_counter s.send_counter ≡ ok (s.send_counter + 1) = ground arith in
      (
        two,
        header ++ sealed,
        rw (seals, fits, writes_one, writes_two, counts) refl,
        after_two
            ∙ ap (λ l. l ++ sealed) after_one
            ∙ append_assoc (R.written s.inner) header sealed,
        same_two ∙ same_one,
        record { sealed = sealed; framed = refl; size = size; short = short; opens = opens },
      )

  recv_lem :
      (s : SecureStream Inner Key) (message frame rest : List ℕ)
      → s.recv_counter + 1 < 2 ^ 64
      → IsFrame s.cipher (nonce_bytes (is_listener (peer s.role)) s.recv_counter) message frame
      → R.readable s.inner ≡ frame ++ rest
      → (inner : Inner) × (recv T C s
          ≡ (received_from s inner, ok (message, 4 + (length message + 16))))
        × (R.readable inner ≡ rest)
        × (R.written inner ≡ R.written s.inner)
  unfolding recv ◌>>=◌ lift gets modify call_inner count_recv
  recv_lem s message frame rest room f e =
      let total = length message + 16 in
      let header = to_be_bytes 4 total in
      let (one, reads_one, rest_one, same_one) =
        R.reads s.inner header (f.sealed ++ rest)
          (e ∙ ap (λ l. l ++ rest) f.framed ∙ append_assoc header f.sealed rest) in
      let (two, reads_two, rest_two, same_two) = R.reads one f.sealed rest rest_one in
      let four : length header ≡ 4 = length-to_be_bytes 4 total in
      let read_one = ap (λ n. T.read_exact s.inner n) (sym four) ∙ reads_one in
      let value : from_be_bytes 0 header ≡ total =
        from_be_bytes-to_be_bytes 4 total (omega (arith, f.short, capacity_four)) in
      let read_two = ap (λ n. T.read_exact one n) (sym f.size) ∙ reads_two in
      let enough : ltb total 16 ≡ false = ground arith in
      let counts : next_counter s.recv_counter ≡ ok (s.recv_counter + 1) = ground arith in
      let direction = from_peer s.role in
      (
        two,
        rw (read_one, value, enough, read_two, direction, f.opens, counts) refl,
        rest_two,
        same_two ∙ same_one,
      )

  -- The bytes of messages in one direction, from a counter on.
  abbrev IsFrames : Key → Bool → ℕ → List (List ℕ) → List ℕ → Type 0
  IsFrames key mark counter [] bytes = bytes ≡ []
  IsFrames key mark counter (m ∷ ms) bytes =
      (frame : List ℕ) × (others : List ℕ) × IsFrame key (nonce_bytes mark counter) m frame
      × (bytes ≡ frame ++ others)
      × IsFrames key mark (counter + 1) ms others

  send_all_lem :
      (messages : List (List ℕ)) (s : SecureStream Inner Key)
      → All (λ m. length m + 16 < 2 ^ 32) messages
      → s.send_counter + length messages < 2 ^ 64
      → (t : SecureStream Inner Key) × (bytes : List ℕ) × (send_all T C messages s
          ≡ (t, ok (map frame_len messages)))
        × (R.written t.inner ≡ R.written s.inner ++ bytes)
        × IsFrames s.cipher (is_listener s.role) s.send_counter messages bytes
        × (t.cipher ≡ s.cipher)
        × (t.role ≡ s.role)
        × (t.send_counter ≡ s.send_counter + length messages)
  unfolding send_all ◌>>=◌ lift
  send_all_lem [] s short room = (s, [], refl, sym (append-nil _), refl, refl, refl, omega arith)
  send_all_lem (m ∷ ms) s short room =
      let (a, frame, sends, wrote, same, framed) = send_lem s m (omega arith) short.0 in
      let (t, bytes, rest, wrote_rest, frames, key, role, counter) =
        send_all_lem ms (sent_to s a) short.1 (omega arith) in
      (
        t,
        frame ++ bytes,
        rw (sends, rest) refl,
        wrote_rest ∙ ap (λ l. l ++ bytes) wrote ∙ append_assoc (R.written s.inner) frame bytes,
        (frame, bytes, framed, refl, frames),
        key,
        role,
        omega (arith, counter),
      )

  recv_all_lem :
      (messages : List (List ℕ)) (r : SecureStream Inner Key) (bytes rest : List ℕ)
      → IsFrames r.cipher (is_listener (peer r.role)) r.recv_counter messages bytes
      → r.recv_counter + length messages < 2 ^ 64
      → R.readable r.inner ≡ bytes ++ rest
      → (u : SecureStream Inner Key) × (recv_all T C (length messages) r
          ≡ (u, ok (map (λ m. (m, frame_len m)) messages)))
        × (R.readable u.inner ≡ rest)
        × (u.cipher ≡ r.cipher)
        × (u.role ≡ r.role)
        × (u.recv_counter ≡ r.recv_counter + length messages)
  unfolding recv_all ◌>>=◌ lift
  recv_all_lem [] r bytes rest frames room e =
      (r, refl, e ∙ ap (λ l. l ++ rest) frames, refl, refl, omega arith)
  recv_all_lem (m ∷ ms) r bytes rest (frame, others, framed, split, frames) room e =
      let (b, receives, left, same) =
        recv_lem r m frame (others ++ rest) (omega arith) framed
          (e ∙ ap (λ l. l ++ rest) split ∙ append_assoc frame others rest) in
      let (u, receives_rest, left_rest, key, role, counter) =
        recv_all_lem ms (received_from r b) others rest frames (omega arith) left in
      (u, rw (receives, receives_rest) refl, left_rest, key, role, omega (arith, counter))

  -- On a reliable transport and with a cipher that decrypts what it encrypts: after messages of less
  -- than `2 ^ 32 - 16` bytes each, and before `2 ^ 64` messages in all, everything is sent; the other
  -- end of the session, once the bytes are what it can read next, receives the messages in their order
  -- with the lengths that the sender counted, and the ends are paired again.
  pub send_all-recv_all :
      (messages : List (List ℕ)) (s r : SecureStream Inner Key) (rest : List ℕ)
      → ArePaired s r
      → All (λ m. length m + 16 < 2 ^ 32) messages
      → s.send_counter + length messages < 2 ^ 64
      → (t : SecureStream Inner Key) × (bytes : List ℕ) × (send_all T C messages s
          ≡ (t, ok (map frame_len messages)))
        × (R.written t.inner ≡ R.written s.inner ++ bytes)
        × (R.readable r.inner ≡ bytes ++ rest
            → (u : SecureStream Inner Key) × (recv_all T C (length messages) r
                ≡ (u, ok (map (λ m. (m, frame_len m)) messages)))
              × (R.readable u.inner ≡ rest)
              × ArePaired t u)
  send_all-recv_all messages s r rest p short room =
      let (t, bytes, sends, wrote, frames, key, role, counter) =
        send_all_lem messages s short room in
      let theirs : IsFrames r.cipher (is_listener (peer r.role)) r.recv_counter messages bytes =
        rw (← p.keys, ← p.roles, ← p.counters) frames in
      (
        t,
        bytes,
        sends,
        wrote,
        λ e.
            let (u, receives, left, u_key, u_role, u_counter) =
              recv_all_lem messages r bytes rest theirs (omega (arith, p.counters)) e in
            (
              u,
              receives,
              left,
              record {
                keys = key ∙ p.keys ∙ sym u_key;
                roles = role ∙ p.roles ∙ ap peer (sym u_role);
                counters = counter ∙ ap (λ n. n + length messages) p.counters ∙ sym u_counter;
              },
            ),
      )
