-- ===== src/SecureStream/Nonces.antt =====
-- src/networking/secure_mesh/secure_stream.rs: the nonces that the two ends of a session encrypt with,
-- over any sequence of calls of `send` and `recv`.
use mpc_core.Prelude.{ℕ, zero, suc, ◌+◌, ◌^◌, ◌<◌, ◌≤◌, ◌≡◌, refl, ◌∙◌, sym, ap, subst, arith}
use mpc_core.Prelude.{List, [], ◌∷◌, ◌++◌, length, ◌∈◌, ok, inl, inr, Outcome}
use mpc_core.Prelude.{true, false, panic, err, out_of_fuel, mem-append}
use mpc_core.Prelude.Runs.{Run, go_on, ◌>>=◌, lift, gets, modify, >>=-run_ok}
use mpc_core.SecureStream.{
  Transport, Cipher, SecureStream, ConnectionRole, listener, initiator, secure_stream, send, recv,
  nonce_bytes, is_listener, to_be_bytes, count_send, call_inner, next_counter,
}
use mpc_core.SecureStream.Bytes.{nonce_bytes-injective}
use mpc_core.SecureStream.Counters.{Leaves, send-Leaves, recv-Leaves}
use mpc_core.SecureStream.Frames.{peer}

-- A call of one end.
pub data Call : Type 0 where
  sending : (message : List ℕ) → Call
  receiving : Call

-- No element is there twice.
unfoldable pub AreDistinct : {A : Type 0} → List A → Type 0
AreDistinct [] = Unit {0}
AreDistinct (x ∷ xs) = (¬ (x ∈ xs)) × AreDistinct xs

-- The nonces of so many messages, from a counter on.
unfoldable nonces_from : ConnectionRole → ℕ → ℕ → List (List ℕ)
nonces_from role counter zero = []
nonces_from role counter (suc n) =
    nonce_bytes (is_listener role) counter ∷ nonces_from role (counter + 1) n

other_role : (role : ConnectionRole) → ¬ (role ≡ peer role)
other_role listener h = cc
other_role initiator h = cc

from_pair : {A B : Type 0} (p : A × B) {a : A} {b : B} → p.0 ≡ a → p.1 ≡ b → p ≡ (a, b)
from_pair p {a} {b} h k = ap (λ x. (x, p.1)) h ∙ ap (λ y. (a, y)) k

ok_inj : {E A : Type 0} {a b : A} → ◌≡◌ {A = Outcome E A} (ok a) (ok b) → a ≡ b
ok_inj h = cc

nonces_from-mem :
    (role : ConnectionRole) (counter n : ℕ) (x : List ℕ)
    → x ∈ nonces_from role counter n
    → (k : ℕ) × (counter ≤ k) × (k < counter + n) × (x ≡ nonce_bytes (is_listener role) k)
unfolding nonces_from
nonces_from-mem role counter zero x h = absurd h
nonces_from-mem role counter (suc n) x (inl e) = (counter, omega arith, omega arith, e)
nonces_from-mem role counter (suc n) x (inr h) =
    let (k, low, high, is) = nonces_from-mem role (counter + 1) n x h in
    (k, omega (arith, low), omega (arith, high), is)

alone :
    (role : ConnectionRole) (counter n : ℕ)
    → counter + n < 2 ^ 64
    → AreDistinct (nonces_from role counter n)
unfolding nonces_from AreDistinct
alone role counter zero h = tt
alone role counter (suc n) h = (
  λ found.
      let (c, low, high, is) = nonces_from-mem role (counter + 1) n _ found in
      let (_, same) =
        nonce_bytes-injective role role counter c (omega arith) (omega (arith, high)) is in
      absurd (omega (arith, same, low)),
  alone role (counter + 1) n (omega arith),
)

-- No nonce of one stretch of counters is there twice, nor among those of the other role.
nonces_from-AreDistinct :
    (role : ConnectionRole) (counter n m : ℕ)
    → counter + n < 2 ^ 64
    → m < 2 ^ 64
    → AreDistinct (nonces_from (peer role) 0 m)
    → AreDistinct (nonces_from role counter n ++ nonces_from (peer role) 0 m)
unfolding nonces_from AreDistinct
nonces_from-AreDistinct role counter zero m h k others = others
nonces_from-AreDistinct role counter (suc n) m h k others = (
  λ found.
      elim (mem-append (nonce_bytes (is_listener role) counter) (nonces_from role (counter + 1) n)
        (nonces_from (peer role) 0 m) found) [
          | inl mine ↦
              let (c, low, high, is) = nonces_from-mem role (counter + 1) n _ mine in
              let (_, same) =
                nonce_bytes-injective role role counter c (omega arith) (omega (arith, high)) is in
              absurd (omega (arith, same, low))
          | inr theirs ↦
              let (c, low, high, is) = nonces_from-mem (peer role) 0 m _ theirs in
              let (same, _) =
                nonce_bytes-injective role (peer role) counter c (omega arith) (omega (arith, high))
                  is in
              absurd (other_role role same)
        ],
  nonces_from-AreDistinct role (counter + 1) n m (omega arith) k others,
)

module _ {Inner Key : Type 0} (T : Transport Inner) (C : Cipher Key) where
  -- The calls in their order, up to the first `send` that fails. A `recv` may end in any way.
  unfoldable pub perform_all : List Call → Run (SecureStream Inner Key) (Unit {0}) (Unit {0})
  unfolding send recv
  perform_all [] s = (s, ok tt)
  perform_all (sending message ∷ calls) s = (send T C message >>= λ _. perform_all calls) s
  perform_all (receiving ∷ calls) s = perform_all calls (recv T C s).0

  -- The nonces that the cipher encrypts with, under a key, in calls from one stream to another: of each message sent,
  -- the one under which it is sealed to the bytes that are written after the header.
  unfoldable pub Encrypts :
      Key → List Call → SecureStream Inner Key → List (List ℕ) → SecureStream Inner Key → Type 0
  Encrypts key [] s nonces t = (nonces ≡ []) × (t ≡ s)
  Encrypts key (sending message ∷ calls) s nonces t =
      (nonce : List ℕ) × (others : List (List ℕ)) × (buffer : List ℕ) × (between : Inner)
      × (u : SecureStream Inner Key) × (len : ℕ) × (nonces ≡ nonce ∷ others)
      × (send T C message s ≡ (u, ok len))
      × (C.encrypt_in_place key nonce (to_be_bytes 4 (length message + 16)) message ≡ ok buffer)
      × (T.write_all s.inner (to_be_bytes 4 (length message + 16)) ≡ (between, ok tt))
      × (T.write_all between buffer ≡ (u.inner, ok tt))
      × Encrypts key calls u others t
  Encrypts key (receiving ∷ calls) s nonces t = Encrypts key calls (recv T C s).0 nonces t

  same_after :
      {A : Type 0} (o : Outcome (Unit {0}) A) (s t : SecureStream Inner Key) (a : A)
      → lift o s ≡ (t, ok a)
      → (t ≡ s) × (o ≡ ok a)
  unfolding lift
  same_after o s t a h = (sym (ap (λ p. p.0) h), ap (λ p. p.1) h)

  itself :
      (s t u : SecureStream Inner Key)
      → gets {E = Unit {0}} (λ s. s) s ≡ (t, ok u)
      → (t ≡ s) × (u ≡ s)
  unfolding gets
  itself s t u h = (sym (ap (λ p. p.0) h), sym (ok_inj (ap (λ p. p.1) h)))

  calls_inner :
      {A : Type 0} (f : Inner → Inner × Outcome (Unit {0}) A) (s t : SecureStream Inner Key) (a : A)
      → call_inner T C f s ≡ (t, ok a)
      → f s.inner ≡ (t.inner, ok a)
  unfolding call_inner
  calls_inner f s t a h = from_pair (f s.inner) (ap (λ p. p.0.inner) h) (ap (λ p. p.1) h)

  next_fits : (c n : ℕ) → next_counter c ≡ ok n → n < 2 ^ 64
  next_fits c n h = ground arith

  stored :
      (o : Outcome (Unit {0}) ℕ) (s t : SecureStream Inner Key)
      → go_on (s, o) (λ n. modify (λ t. record t { send_counter = n })) ≡ (t, ok tt)
      → (t.inner ≡ s.inner) × (o ≡ ok t.send_counter)
  unfolding modify
  stored (ok n) s t h = (sym (ap (λ p. p.0.inner) h), ap (λ p. ok p.0.send_counter) h)
  stored (err e) s t h = cc
  stored panic s t h = cc
  stored out_of_fuel s t h = cc

  counts :
      (s t : SecureStream Inner Key)
      → count_send T C s ≡ (t, ok tt)
      → (t.inner ≡ s.inner) × (t.send_counter < 2 ^ 64)
  unfolding count_send
  counts s t h =
      let (same, next) = stored (next_counter s.send_counter) s t h in
      (same, next_fits s.send_counter t.send_counter next)

  send_inv :
      (message : List ℕ) (s t : SecureStream Inner Key) (len : ℕ)
      → send T C message s ≡ (t, ok len)
      → (buffer : List ℕ) × (between : Inner) × (C.encrypt_in_place s.cipher
            (nonce_bytes (is_listener s.role) s.send_counter)
            (to_be_bytes 4 (length message + 16))
            message
          ≡ ok buffer)
        × (T.write_all s.inner (to_be_bytes 4 (length message + 16)) ≡ (between, ok tt))
        × (T.write_all between buffer ≡ (t.inner, ok tt))
        × (t.send_counter < 2 ^ 64)
  unfolding send
  send_inv message s t len h =
      let (u, self, e, h0) = >>=-run_ok _ _ s h in
      let (u1, buffer, e1, h1) = >>=-run_ok _ _ u h0 in
      let (u2, _, e2, h2) = >>=-run_ok _ _ u1 h1 in
      let (u3, _, e3, h3) = >>=-run_ok _ _ u2 h2 in
      let (u4, _, e4, h4) = >>=-run_ok _ _ u3 h3 in
      let (u5, _, e5, h5) = >>=-run_ok _ _ u4 h4 in
      let (is0, me) = itself s u self e in
      let (is1, seals) = same_after _ u u1 buffer e1 in
      let is2 = (same_after _ u1 u2 _ e2).0 ∙ is1 ∙ is0 in
      let header =
        calls_inner (λ i. T.write_all i (to_be_bytes 4 (length message + 16))) u2 u3 _ e3 in
      let body = calls_inner (λ i. T.write_all i buffer) u3 u4 _ e4 in
      let (still, fits) = counts u4 u5 e5 in
      let (is5, _) = same_after _ u5 t len h5 in
      (
        buffer,
        u3.inner,
        subst
            (λ v.
              C.encrypt_in_place v.cipher (nonce_bytes (is_listener v.role) v.send_counter)
                (to_be_bytes 4 (length message + 16)) message
              ≡ ok buffer)
            me seals,
        subst (λ i. T.write_all i (to_be_bytes 4 (length message + 16)) ≡ (u3.inner, ok tt))
            (ap (λ v. v.inner) is2) header,
        body ∙ ap (λ i. (i, ok tt)) (sym (ap (λ v. v.inner) is5 ∙ still)),
        subst (λ v. v.send_counter < 2 ^ 64) (sym is5) fits,
      )

  perform_all-Encrypts :
      (key : Key) (calls : List Call) (s t : SecureStream Inner Key)
      → s.cipher ≡ key
      → perform_all calls s ≡ (t, ok tt)
      → s.send_counter < 2 ^ 64
      → (n : ℕ) × (s.send_counter + n < 2 ^ 64)
        × Encrypts key calls s (nonces_from s.role s.send_counter n) t
  unfolding perform_all Encrypts nonces_from
  perform_all-Encrypts key [] s t keyed h room = (0, omega arith, (refl, sym (ap (λ p. p.0) h)))
  perform_all-Encrypts key (sending message ∷ calls) s t keyed h room =
      let (u, len, sends, later) = >>=-run_ok _ _ s h in
      let (buffer, between, seals, header, body, fits) = send_inv message s u len sends in
      let leaves = subst (λ r. Leaves true false s r) sends (send-Leaves T C message s) in
      let (n, room', rest) =
        perform_all-Encrypts key calls u t (leaves.cipher ∙ keyed) later fits in
      let counter : u.send_counter ≡ s.send_counter + 1 = leaves.sent in
      let from =
        subst (λ r. Encrypts key calls u (nonces_from r u.send_counter n) t) leaves.role rest in
      (
        suc n,
        omega (arith, counter, room'),
        (
          nonce_bytes (is_listener s.role) s.send_counter,
          nonces_from s.role (s.send_counter + 1) n,
          buffer,
          between,
          u,
          len,
          refl,
          sends,
          subst
              (λ k.
                C.encrypt_in_place k (nonce_bytes (is_listener s.role) s.send_counter)
                  (to_be_bytes 4 (length message + 16)) message
                ≡ ok buffer)
              keyed seals,
          header,
          body,
          subst (λ c. Encrypts key calls u (nonces_from s.role c n) t) counter from,
        ),
      )
  perform_all-Encrypts key (receiving ∷ calls) s t keyed h room =
      let leaves = recv-Leaves T C s in
      let u = (recv T C s).0 in
      let counter : u.send_counter ≡ s.send_counter = leaves.sent in
      let (n, room', rest) =
        perform_all-Encrypts key calls u t (leaves.cipher ∙ keyed) h (omega (arith, counter)) in
      (
        n,
        omega (arith, counter, room'),
        subst (λ c. Encrypts key calls u (nonces_from s.role c n) t) counter
            (subst (λ r. Encrypts key calls u (nonces_from r u.send_counter n) t) leaves.role rest),
      )

  -- The two ends of a session start with one key, counters at 0 and opposite roles, each on its own
  -- transport, and each does any calls of `send` and `recv`. When every `send` succeeds, whatever way
  -- the `recv`s end, there is a nonce for each message that is sent, under which the cipher seals it with
  -- that key to the bytes that are written after its header, and no nonce is there twice among those of
  -- both ends.
  pub perform_all-AreDistinct :
      (key : Key) (role : ConnectionRole) (a b : Inner) (calls others : List Call)
      (s t : SecureStream Inner Key)
      → perform_all calls (secure_stream T C a key role) ≡ (s, ok tt)
      → perform_all others (secure_stream T C b key (peer role)) ≡ (t, ok tt)
      → (xs : List (List ℕ)) × (ys : List (List ℕ)) × Encrypts key calls
          (secure_stream T C a key role)
          xs
          s
        × Encrypts key others (secure_stream T C b key (peer role)) ys t
        × AreDistinct (xs ++ ys)
  perform_all-AreDistinct key role a b calls others s t h k =
      let (n, room, mine) =
        perform_all-Encrypts key calls (secure_stream T C a key role) s refl h (omega arith) in
      let (m, room', theirs) =
        perform_all-Encrypts key others (secure_stream T C b key (peer role)) t refl k
          (omega arith) in
      (
        nonces_from role 0 n,
        nonces_from (peer role) 0 m,
        mine,
        theirs,
        nonces_from-AreDistinct role 0 n m (omega (arith, room)) (omega (arith, room'))
            (alone (peer role) 0 m (omega (arith, room'))),
      )
