-- ===== src/Identity/Tests.antt =====
-- src/networking/secure_mesh/identity.rs: keys of one byte repeated, written as they are.
use mpc_core.Prelude.{ℕ, ◌≡◌, ◌≢◌, refl, some, List, [], ◌∷◌, length, replicate, ok, err, get_or}
use mpc_core.Identity.{
  Base64, Keys, AreCodecs, serialize, deserialize, invalid_key_length, serialize-deserialize,
}

abbrev plain : Base64 (List ℕ)
plain = record { encode = λ bytes. bytes; decode = λ s. some s }

abbrev repeated : Keys ℕ
repeated = record {
  as_bytes = λ key. replicate 32 key;
  from_bytes = λ bytes. some (get_or bytes 0 0);
}

abbrev short : List ℕ
short = 1 ∷ 2 ∷ []

codecs : AreCodecs plain repeated
codecs = record { decodes = λ bytes. refl; length-as_bytes = λ key. refl; reads = λ key. refl }

serialize-deserialize_example :
    (deserialize plain repeated (serialize plain repeated ok 9) ≡ ok 9)
    × (length short ≢ 32
        → deserialize plain repeated (ok (plain.encode short)) ≡ err invalid_key_length)
serialize-deserialize_example = serialize-deserialize plain repeated codecs 9 short
