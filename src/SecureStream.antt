-- ===== src/SecureStream.antt =====
-- src/networking/secure_mesh/secure_stream.rs: framed, encrypted messages over a byte transport. The
-- transport (tokio), the cipher (chacha20poly1305) and the keys and signatures (x25519-dalek,
-- ed25519-dalek) are parameters. Bytes are numbers, and the additions to the counters are checked.
pub mod Bytes
pub mod Frames
pub mod Counters
pub mod Nonces
pub mod Handshake
pub mod Tests
use mpc_core.Prelude.{ℕ, zero, suc, ◌+◌, ◌/◌, ◌%◌, ◌*◌, ◌^◌, Bool, true, false, List, [], ◌∷◌, ◌++◌}
use mpc_core.Prelude.{length, Outcome, ok, err, panic, ltb, ◌==◌, if◌then◌else◌, assert}
use mpc_core.Prelude.Runs.{Run, ◌>>=◌, ◌>>◌, lift, gets, modify, go_on}

-- `to_be_bytes` of an integer of the given number of bytes, the most significant first; what does not
-- fit is cut off, as `as u32` does.
unfoldable pub to_be_bytes : ℕ → ℕ → List ℕ
to_be_bytes zero n = []
to_be_bytes (suc width) n = to_be_bytes width (n / 256) ++ (n % 256) ∷ []

-- `from_be_bytes`, from the value of the bytes read so far
unfoldable pub from_be_bytes : ℕ → List ℕ → ℕ
from_be_bytes value [] = value
from_be_bytes value (byte ∷ bytes) = from_be_bytes (value * 256 + byte) bytes

pub data ConnectionRole : Type 0 where
  listener initiator : ConnectionRole

abbrev pub is_listener : ConnectionRole → Bool
is_listener listener = true
is_listener initiator = false

abbrev pub is_initiator : ConnectionRole → Bool
is_initiator listener = false
is_initiator initiator = true

abbrev pub u32_len : ℕ
u32_len = 4

abbrev pub tag_len : ℕ
tag_len = 16

-- `AsyncRead + AsyncWrite`: the transport after the call, and a failure or what was read.
pub record Transport (Inner : Type 0) : Type 0 where
  pub write_all : Inner → List ℕ → Inner × Outcome (Unit {0}) (Unit {0})
  pub read_exact : Inner → ℕ → Inner × Outcome (Unit {0}) (List ℕ)

-- The cipher under a key: nonce, associated data and buffer to the buffer after the call.
pub record Cipher (Key : Type 0) : Type 0 where
  pub encrypt_in_place : Key → List ℕ → List ℕ → List ℕ → Outcome (Unit {0}) (List ℕ)
  pub decrypt_in_place : Key → List ℕ → List ℕ → List ℕ → Outcome (Unit {0}) (List ℕ)

-- `cipher` is known by its key.
pub record SecureStream (Inner Key : Type 0) : Type 0 where
  pub inner : Inner
  pub cipher : Key
  pub send_counter : ℕ
  pub recv_counter : ℕ
  pub role : ConnectionRole

-- The twelve bytes of a nonce: the first one tells the direction, and the last eight count.
unfoldable pub nonce_bytes : Bool → ℕ → List ℕ
unfolding to_be_bytes
nonce_bytes mark counter = (if mark then 1 else 0) ∷ 0 ∷ 0 ∷ 0 ∷ to_be_bytes 8 counter

-- `counter += 1` on `u64`
abbrev pub next_counter : ℕ → Outcome (Unit {0}) ℕ
next_counter counter = if ltb (counter + 1) (2 ^ 64) then ok (counter + 1) else panic

module _ {Inner Key : Type 0} (T : Transport Inner) (C : Cipher Key) where
  open T use {write_all, read_exact}
  open C use {encrypt_in_place, decrypt_in_place}

  abbrev pub Act : Type 0 → Type 0
  Act A = Run (SecureStream Inner Key) (Unit {0}) A

  abbrev pub secure_stream : Inner → Key → ConnectionRole → SecureStream Inner Key
  secure_stream inner shared_secret role = record {
    inner = inner;
    cipher = shared_secret;
    send_counter = 0;
    recv_counter = 0;
    role = role;
  }

  -- A call of the transport.
  unfoldable pub call_inner : {A : Type 0} → (Inner → Inner × Outcome (Unit {0}) A) → Act A
  call_inner f s = (record s { inner = (f s.inner).0 }, (f s.inner).1)

  -- `self.send_counter += 1`, and the same of `recv_counter`
  unfoldable pub count_send : Act (Unit {0})
  count_send s =
      go_on (s, next_counter s.send_counter) (λ n. modify (λ t. record t { send_counter = n }))

  unfoldable pub count_recv : Act (Unit {0})
  count_recv s =
      go_on (s, next_counter s.recv_counter) (λ n. modify (λ t. record t { recv_counter = n }))

  unfoldable pub send : List ℕ → Act ℕ
  unfolding nonce_bytes to_be_bytes call_inner count_send
  send message = do
    s ← gets (λ s. s)
    let nonce = nonce_bytes (is_listener s.role) s.send_counter
    let total_len = length message + tag_len
    let total_len_bytes = to_be_bytes u32_len total_len
    buffer ← lift (encrypt_in_place s.cipher nonce total_len_bytes message)
    lift (assert (length buffer == total_len))
    call_inner (λ inner. write_all inner total_len_bytes)
    call_inner (λ inner. write_all inner buffer)
    count_send
    lift (ok (u32_len + total_len))

  unfoldable pub recv : Act (List ℕ × ℕ)
  unfolding nonce_bytes from_be_bytes call_inner count_recv
  recv = do
    len_buf ← call_inner (λ inner. read_exact inner u32_len)
    let total_len = from_be_bytes 0 len_buf
    lift (if ltb total_len tag_len then err tt else ok tt)
    buffer ← call_inner (λ inner. read_exact inner total_len)
    s ← gets (λ s. s)
    let nonce = nonce_bytes (is_initiator s.role) s.recv_counter
    message ← lift (decrypt_in_place s.cipher nonce len_buf buffer)
    count_recv
    lift (ok (message, u32_len + total_len))
