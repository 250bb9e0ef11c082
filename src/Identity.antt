-- ===== src/Identity.antt =====
-- src/networking/secure_mesh/identity.rs: a node's address and public key, and the key as a string. The
-- encoding (base64), the keys (ed25519-dalek) and the serializers (serde) are parameters.
pub mod Tests
use mpc_core.Prelude.{
  ℕ, ◌≡◌, ◌≢◌, refl, ◌∙◌, sym, Option, none, some, List, length, Outcome, ok, err, panic,
  out_of_fuel, ◌>>=◌, if◌then◌else◌, ◌==◌, ==_refl, ==→≡, Bool-cases, inl, inr, true, false,
}

pub record NodeIdentity (Address VerifyingKey : Type 0) : Type 0 where
  pub address : Address
  pub public_key : VerifyingKey

-- The errors that `D::Error::custom` makes of a failure, and those of the deserializer.
pub data KeyError : Type 0 where
  no_string invalid_base64 invalid_key_length invalid_key : KeyError

-- `BASE64_STANDARD`
pub record Base64 (Str : Type 0) : Type 0 where
  pub encode : List ℕ → Str
  pub decode : Str → Option (List ℕ)

pub record Keys (VerifyingKey : Type 0) : Type 0 where
  pub as_bytes : VerifyingKey → List ℕ
  pub from_bytes : List ℕ → Option VerifyingKey

abbrev pub public_key_length : ℕ
public_key_length = 32

-- `map_err(D::Error::custom)`
abbrev pub custom : {A : Type 0} → KeyError → Option A → Outcome KeyError A
custom e none = err e
custom e (some a) = ok a

module _ {Str VerifyingKey : Type 0} (B : Base64 Str) (K : Keys VerifyingKey) where
  -- `serializer.serialize_str` is what the format does with the string.
  unfoldable pub serialize :
      {Written : Type 0}
      → (Str → Outcome KeyError Written)
      → VerifyingKey
      → Outcome KeyError Written
  serialize serialize_str key = serialize_str (B.encode (K.as_bytes key))

  -- The string is what the deserializer finds.
  unfoldable pub deserialize : Outcome KeyError Str → Outcome KeyError VerifyingKey
  deserialize found = found >>= λ s. custom invalid_base64 (B.decode s) >>= λ bytes.
      (if length bytes == public_key_length then ok bytes else err invalid_key_length)
      >>= λ bytes_fixed. custom invalid_key (K.from_bytes bytes_fixed)

  -- What the crates promise: bytes decode from their encoding, a key has 32 bytes and is read from them,
  -- and a key read from bytes has these bytes.
  pub record AreCodecs : Type 0 where
    pub decodes : (bytes : List ℕ) → B.decode (B.encode bytes) ≡ some bytes
    pub length-as_bytes : (key : VerifyingKey) → length (K.as_bytes key) ≡ 32
    pub reads : (key : VerifyingKey) → K.from_bytes (K.as_bytes key) ≡ some key

  -- With the codecs' promises, a key is read back from the string that is written for it, and a string of
  -- other than 32 bytes is refused for its length.
  pub serialize-deserialize :
      (codecs : AreCodecs) (key : VerifyingKey) (bytes : List ℕ)
      → (deserialize (serialize ok key) ≡ ok key)
        × (length bytes ≢ 32 → deserialize (ok (B.encode bytes)) ≡ err invalid_key_length)
  unfolding serialize deserialize
  serialize-deserialize codecs key bytes = (
    rw (codecs.decodes (K.as_bytes key), codecs.length-as_bytes key, codecs.reads key) refl,
    λ ne. elim (Bool-cases (length bytes == 32)) [
      | inl e ↦ absurd (ne (==→≡ (length bytes) 32 e))
      | inr e ↦ rw (codecs.decodes bytes, e) refl
    ],
  )
