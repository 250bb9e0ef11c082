-- ===== src/SecureStream/Handshake.antt =====
-- src/networking/secure_mesh/secure_stream.rs, `perform_handshake`: the exchange of session keys, signed
-- by the identities. Keys, secrets and signatures are the bytes that travel.
use mpc_core.Prelude.{ℕ, ◌≡◌, refl, ◌∙◌, sym, ap, Bool, true, false, List, ◌++◌, length}
use mpc_core.Prelude.{ok, err, if◌then◌else◌, append_assoc}
use mpc_core.Prelude.Runs.{Run, ◌>>=◌, ◌>>◌, lift, gets, >>=-run_ok}
use mpc_core.SecureStream.{
  Transport, Cipher, SecureStream, ConnectionRole, listener, initiator, secure_stream,
}
use mpc_core.SecureStream.Frames.{IsReliable, ArePaired, peer}

-- The curves: X25519 and Ed25519. A session key is what `diffie_hellman` gives.
pub record Curves (Key : Type 0) : Type 0 where
  pub public_of : List ℕ → List ℕ
  pub diffie_hellman : List ℕ → List ℕ → Key
  pub sign : List ℕ → List ℕ → List ℕ
  pub verify : List ℕ → List ℕ → List ℕ → Bool
  pub verifying_key : List ℕ → List ℕ

peer-peer : (role : ConnectionRole) → role ≡ peer (peer role)
peer-peer listener = refl
peer-peer initiator = refl

-- What the curves promise: the lengths of keys and signatures, one session key for the two ends, and
-- signatures that verify.
pub record AreCurves {Key : Type 0} (X : Curves Key) : Type 0 where
  pub length-public_of : (secret : List ℕ) → length (X.public_of secret) ≡ 32
  pub length-sign : (identity payload : List ℕ) → length (X.sign identity payload) ≡ 64
  pub agrees :
      (a b : List ℕ) → X.diffie_hellman a (X.public_of b) ≡ X.diffie_hellman b (X.public_of a)
  pub verifies :
      (identity payload : List ℕ)
      → X.verify (X.verifying_key identity) payload (X.sign identity payload) ≡ true

module _ {Inner Key : Type 0} (T : Transport Inner) (C : Cipher Key) (X : Curves Key) where
  open T use {write_all, read_exact}
  open X use {public_of, diffie_hellman, sign, verify}

  -- `my_secret` is what the generator gives.
  unfoldable pub perform_handshake :
      List ℕ → List ℕ → List ℕ → ConnectionRole → Run Inner (Unit {0}) (SecureStream Inner Key)
  perform_handshake my_secret my_identity peer_identity role = do
    let my_public = public_of my_secret
    (λ inner. write_all inner my_public)
    peer_public ← (λ inner. read_exact inner 32)
    let session_key = diffie_hellman my_secret peer_public
    (λ inner. write_all inner (sign my_identity (my_public ++ peer_public)))
    peer_signature ← (λ inner. read_exact inner 64)
    lift (if verify peer_identity (peer_public ++ my_public) peer_signature then ok tt else err tt)
    gets (λ inner. secure_stream T C inner session_key role)

  finish :
      (test : Bool) (k : Inner → SecureStream Inner Key) (d t : Inner) (s : SecureStream Inner Key)
      → (lift (if test then ok tt else err tt) >> gets k) d ≡ (t, ok s)
      → (test ≡ true) × (s ≡ k t) × (d ≡ t)
  unfolding ◌>>=◌ lift gets
  finish true k d t s h = (refl, cc, cc)
  finish false k d t s h = cc

  -- A handshake that succeeds has written its session key, read the 32 bytes of the peer's, written its
  -- signature over its session key and then the peer's, and read the 64 bytes of a signature, each call
  -- on the transport as the one before leaves it. That signature is by the peer's identity, over the
  -- peer's session key and then its own. The stream is on the transport that is left, with both
  -- counters at 0, and is keyed by the secret and the session key that was read.
  pub perform_handshake-verified :
      (my_secret my_identity peer_identity : List ℕ) (role : ConnectionRole) (inner t : Inner)
      (s : SecureStream Inner Key)
      → perform_handshake my_secret my_identity peer_identity role inner ≡ (t, ok s)
      → (a : Inner) × (b : Inner) × (c : Inner) × (peer_public : List ℕ) × (signature : List ℕ)
        × (write_all inner (public_of my_secret) ≡ (a, ok tt))
        × (read_exact a 32 ≡ (b, ok peer_public))
        × (write_all b (sign my_identity (public_of my_secret ++ peer_public)) ≡ (c, ok tt))
        × (read_exact c 64 ≡ (t, ok signature))
        × (verify peer_identity (peer_public ++ public_of my_secret) signature ≡ true)
        × (s ≡ secure_stream T C t (diffie_hellman my_secret peer_public) role)
  unfolding perform_handshake
  perform_handshake-verified my_secret my_identity peer_identity role inner t s h =
      let (a, x, e, h1) = >>=-run_ok _ _ inner h in
      let (b, peer_public, e1, h2) = >>=-run_ok _ _ a h1 in
      let (c, y, e2, h3) = >>=-run_ok _ _ b h2 in
      let (d, signature, e3, h4) = >>=-run_ok _ _ c h3 in
      let (checked, made, left) =
        finish (verify peer_identity (peer_public ++ public_of my_secret) signature) _ d t s h4 in
      (
        a,
        b,
        c,
        peer_public,
        signature,
        e,
        e1,
        e2,
        e3 ∙ ap (λ i. (i, ok signature)) left,
        checked,
        made,
      )

  module _ (R : IsReliable T) (L : AreCurves X) where
    perform_handshake_ok :
        (my_secret my_identity peer_identity peer_public signature rest : List ℕ)
        (role : ConnectionRole) (inner : Inner)
        → length peer_public ≡ 32
        → length signature ≡ 64
        → R.readable inner ≡ peer_public ++ (signature ++ rest)
        → verify peer_identity (peer_public ++ public_of my_secret) signature ≡ true
        → (t : Inner) × (perform_handshake my_secret my_identity peer_identity role inner
            ≡ (t, ok (secure_stream T C t (diffie_hellman my_secret peer_public) role)))
          × (R.readable t ≡ rest)
          × (R.written t
              ≡ R.written inner
                ++ (public_of my_secret ++ sign my_identity (public_of my_secret ++ peer_public)))
    unfolding perform_handshake ◌>>=◌ lift gets
    perform_handshake_ok my_secret my_identity peer_identity peer_public signature rest role inner
          lp ls e v =
        let mine = public_of my_secret in
        let (a, write_a, written_a, readable_a) = R.writes inner mine in
        let (b, read_b, readable_b, written_b) =
          R.reads a peer_public (signature ++ rest) (readable_a ∙ e) in
        let signed = sign my_identity (mine ++ peer_public) in
        let (c, write_c, written_c, readable_c) = R.writes b signed in
        let (d, read_d, readable_d, written_d) =
          R.reads c signature rest (readable_c ∙ readable_b) in
        let read_b' = ap (λ n. read_exact a n) (sym lp) ∙ read_b in
        let read_d' = ap (λ n. read_exact c n) (sym ls) ∙ read_d in
        (
          d,
          rw (write_a, read_b', write_c, read_d', v) refl,
          readable_d,
          written_d
              ∙ written_c
              ∙ ap (λ l. l ++ signed) (written_b ∙ written_a)
              ∙ append_assoc (R.written inner) mine signed,
        )

    -- On reliable transports, two ends that know each other's identity and that can read what the other
    -- writes both end the handshake with a stream, and the streams are paired in both directions.
    pub perform_handshake-ArePaired :
        (a_secret b_secret a_identity b_identity a_rest b_rest : List ℕ) (role : ConnectionRole)
        (a b : Inner)
        → R.readable a
          ≡ public_of b_secret
            ++ (sign b_identity (public_of b_secret ++ public_of a_secret) ++ a_rest)
        → R.readable b
          ≡ public_of a_secret
            ++ (sign a_identity (public_of a_secret ++ public_of b_secret) ++ b_rest)
        → (s : SecureStream Inner Key) × (r : SecureStream Inner Key) × (perform_handshake a_secret
              a_identity
              (X.verifying_key b_identity)
              role
              a
            ≡ (s.inner, ok s))
          × (perform_handshake b_secret b_identity (X.verifying_key a_identity) (peer role) b
              ≡ (r.inner, ok r))
          × (R.written s.inner
              ≡ R.written a
                ++ (public_of a_secret
                    ++ sign a_identity (public_of a_secret ++ public_of b_secret)))
          × (R.written r.inner
              ≡ R.written b
                ++ (public_of b_secret
                    ++ sign b_identity (public_of b_secret ++ public_of a_secret)))
          × (R.readable s.inner ≡ a_rest)
          × (R.readable r.inner ≡ b_rest)
          × ArePaired s r
          × ArePaired r s
    perform_handshake-ArePaired a_secret b_secret a_identity b_identity a_rest b_rest role a b ea
          eb =
        let a_public = public_of a_secret in
        let b_public = public_of b_secret in
        let (t, runs_a, left_a, wrote_a) =
          perform_handshake_ok a_secret a_identity (X.verifying_key b_identity) b_public
            (sign b_identity (b_public ++ a_public)) a_rest role a (L.length-public_of b_secret)
            (L.length-sign b_identity (b_public ++ a_public)) ea
            (L.verifies b_identity (b_public ++ a_public)) in
        let (u, runs_b, left_b, wrote_b) =
          perform_handshake_ok b_secret b_identity (X.verifying_key a_identity) a_public
            (sign a_identity (a_public ++ b_public)) b_rest (peer role) b
            (L.length-public_of a_secret) (L.length-sign a_identity (a_public ++ b_public)) eb
            (L.verifies a_identity (a_public ++ b_public)) in
        let same_key = L.agrees a_secret b_secret in
        (
          secure_stream T C t (diffie_hellman a_secret b_public) role,
          secure_stream T C u (diffie_hellman b_secret a_public) (peer role),
          runs_a,
          runs_b,
          wrote_a,
          wrote_b,
          left_a,
          left_b,
          record { keys = same_key; roles = peer-peer role; counters = refl },
          record { keys = sym same_key; roles = refl; counters = refl },
        )
