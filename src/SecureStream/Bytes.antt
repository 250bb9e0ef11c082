-- ===== src/SecureStream/Bytes.antt =====
-- src/networking/secure_mesh/secure_stream.rs: the big-endian integers of the frames and nonces.
use mpc_core.Prelude.{ℕ, zero, suc, ◌+◌, ◌*◌, ◌/◌, ◌%◌, ◌^◌, ◌<◌, ◌≡◌, refl, ◌∙◌, sym, ap}
use mpc_core.Prelude.{List, [], ◌∷◌, ◌++◌, length, length-append, arith, get_or, drop}
use mpc_core.SecureStream.{
  to_be_bytes, from_be_bytes, nonce_bytes, is_listener, ConnectionRole, listener, initiator,
}

-- The number of integers of so many bytes.
unfoldable pub capacity : ℕ → ℕ
capacity zero = 1
capacity (suc width) = 256 * capacity width

pub length-to_be_bytes : (width n : ℕ) → length (to_be_bytes width n) ≡ width
unfolding to_be_bytes
length-to_be_bytes zero n = refl
length-to_be_bytes (suc width) n = omega (
  arith,
  length-append (to_be_bytes width (n / 256)) ((n % 256) ∷ []),
  length-to_be_bytes width (n / 256),
)

from_be_bytes-snoc :
    (value byte : ℕ) (bytes : List ℕ)
    → from_be_bytes value (bytes ++ byte ∷ []) ≡ from_be_bytes value bytes * 256 + byte
unfolding from_be_bytes
from_be_bytes-snoc value byte [] = refl
from_be_bytes-snoc value byte (b ∷ bytes) = from_be_bytes-snoc (value * 256 + b) byte bytes

-- An integer that fits is read back from its bytes.
pub from_be_bytes-to_be_bytes :
    (width n : ℕ) → n < capacity width → from_be_bytes 0 (to_be_bytes width n) ≡ n
unfolding to_be_bytes capacity
from_be_bytes-to_be_bytes zero n h = unfold from_be_bytes in omega arith
from_be_bytes-to_be_bytes (suc width) n h =
    let rest = from_be_bytes-to_be_bytes width (n / 256) (omega arith) in
    from_be_bytes-snoc 0 (n % 256) (to_be_bytes width (n / 256)) ∙ omega (arith, rest)

-- What is read back is below the number of integers of so many bytes.
pub from_be_bytes-wraps : (width n : ℕ) → from_be_bytes 0 (to_be_bytes width n) < capacity width
unfolding to_be_bytes capacity
from_be_bytes-wraps zero n = unfold from_be_bytes in omega arith
from_be_bytes-wraps (suc width) n = omega (
  arith,
  from_be_bytes-snoc 0 (n % 256) (to_be_bytes width (n / 256)),
  from_be_bytes-wraps width (n / 256),
)

same_role :
    (r q : ConnectionRole) (c d : ℕ)
    → nonce_bytes (is_listener r) c ≡ nonce_bytes (is_listener q) d
    → r ≡ q
unfolding nonce_bytes
same_role listener listener c d e = refl
same_role initiator initiator c d e = refl
same_role listener initiator c d e =
    let mark = ap (λ l. get_or l 0 0) e in absurd (omega (arith, mark))
same_role initiator listener c d e =
    let mark = ap (λ l. get_or l 0 0) e in absurd (omega (arith, mark))

counter_bytes :
    (r q : ConnectionRole) (c d : ℕ)
    → nonce_bytes (is_listener r) c ≡ nonce_bytes (is_listener q) d
    → to_be_bytes 8 c ≡ to_be_bytes 8 d
unfolding nonce_bytes
counter_bytes r q c d e = ap (drop 4) e

capacity_eight : capacity 8 ≡ 2 ^ 64
unfolding capacity
capacity_eight = refl

pub capacity_four : capacity 4 ≡ 2 ^ 32
unfolding capacity
capacity_four = refl

-- A nonce tells its direction and its counter, if that is below `2 ^ 64`.
pub nonce_bytes-injective :
    (r q : ConnectionRole) (c d : ℕ)
    → c < 2 ^ 64
    → d < 2 ^ 64
    → nonce_bytes (is_listener r) c ≡ nonce_bytes (is_listener q) d
    → (r ≡ q) × (c ≡ d)
nonce_bytes-injective r q c d hc hd e = (
  same_role r q c d e,
  sym (from_be_bytes-to_be_bytes 8 c (omega (arith, capacity_eight)))
      ∙ ap (from_be_bytes 0) (counter_bytes r q c d e)
      ∙ from_be_bytes-to_be_bytes 8 d (omega (arith, capacity_eight)),
)
