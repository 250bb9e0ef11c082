-- ===== src/SecureStream/Counters.antt =====
-- src/networking/secure_mesh/secure_stream.rs: the counters of a session, on any transport and with any
-- cipher, whatever way a call ends.
use mpc_core.Prelude.{ℕ, ◌+◌, ◌≡◌, refl, ◌∙◌, ap, List, Outcome, ok, err, panic, out_of_fuel, arith}
use mpc_core.Prelude.{Bool, true, false, ◌≢◌}
use mpc_core.Prelude.Runs.{Run, ◌>>=◌, lift, gets, modify, go_on}
use mpc_core.SecureStream.{to_be_bytes, from_be_bytes, u32_len, tag_len}
use mpc_core.Prelude.{length}
use mpc_core.SecureStream.{
  Transport, Cipher, SecureStream, send, recv, call_inner, count_send, count_recv, next_counter,
}

-- One more after a success in the direction of the call, and no change otherwise.
abbrev pub counted : {A : Type 0} → Bool → Outcome (Unit {0}) A → ℕ → ℕ
counted true (ok a) n = n + 1
counted true (err e) n = n
counted true panic n = n
counted true out_of_fuel n = n
counted false r n = n

counted_same :
    {A : Type 0} (b : Bool) (r : Outcome (Unit {0}) A) (n : ℕ)
    → ((a : A) → r ≢ ok a)
    → n ≡ counted b r n
counted_same true (ok a) n h = absurd (h a refl)
counted_same true (err e) n h = refl
counted_same true panic n h = refl
counted_same true out_of_fuel n h = refl
counted_same false r n h = refl

next_counter_ok : (c n : ℕ) → next_counter c ≡ ok n → n ≡ c + 1
next_counter_ok c n h = ground arith

module _ {Inner Key : Type 0} where
  record Same (s t : SecureStream Inner Key) : Type 0 where
    cipher : t.cipher ≡ s.cipher
    role : t.role ≡ s.role
    sent : t.send_counter ≡ s.send_counter
    received : t.recv_counter ≡ s.recv_counter

  -- What a call leaves of the session: one of `send`, or one of `recv`.
  pub record Leaves {A : Type 0} (sends receives : Bool) (s : SecureStream Inner Key)
      (r : SecureStream Inner Key × Outcome (Unit {0}) A) : Type 0 where
    pub cipher : r.0.cipher ≡ s.cipher
    pub role : r.0.role ≡ s.role
    pub sent : r.0.send_counter ≡ counted sends r.1 s.send_counter
    pub received : r.0.recv_counter ≡ counted receives r.1 s.recv_counter

  Same-trans : {s t u : SecureStream Inner Key} → Same s t → Same t u → Same s u
  Same-trans p q = record {
    cipher = q.cipher ∙ p.cipher;
    role = q.role ∙ p.role;
    sent = q.sent ∙ p.sent;
    received = q.received ∙ p.received;
  }

  Same-refl : (s : SecureStream Inner Key) → Same s s
  Same-refl s = record { cipher = refl; role = refl; sent = refl; received = refl }

  module _ (s : SecureStream Inner Key) where
    stop-Leaves :
        {A : Type 0} (b c : Bool) (t : SecureStream Inner Key) (r : Outcome (Unit {0}) A)
        → ((a : A) → r ≢ ok a)
        → Same s t
        → Leaves b c s (t, r)
    stop-Leaves b c t r h p = record {
      cipher = p.cipher;
      role = p.role;
      sent = p.sent ∙ counted_same b r s.send_counter h;
      received = p.received ∙ counted_same c r s.recv_counter h;
    }

    go_on-Leaves :
        {A B : Type 0} (b c : Bool) (r : SecureStream Inner Key × Outcome (Unit {0}) A)
        (f : A → Run (SecureStream Inner Key) (Unit {0}) B)
        → Same s r.0
        → ((a : A) (u : SecureStream Inner Key) → Same s u → Leaves b c s (f a u))
        → Leaves b c s (go_on r f)
    go_on-Leaves b c (t, ok a) f p k = k a t p
    go_on-Leaves b c (t, err e) f p k = stop-Leaves b c t (err e) (λ a h. cc) p
    go_on-Leaves b c (t, panic) f p k = stop-Leaves b c t panic (λ a h. cc) p
    go_on-Leaves b c (t, out_of_fuel) f p k = stop-Leaves b c t out_of_fuel (λ a h. cc) p

    then-Leaves :
        {A B : Type 0} (b c : Bool) (t : SecureStream Inner Key)
        (m : Run (SecureStream Inner Key) (Unit {0}) A)
        (f : A → Run (SecureStream Inner Key) (Unit {0}) B)
        → Same s t
        → ((u : SecureStream Inner Key) → Same u (m u).0)
        → ((a : A) (u : SecureStream Inner Key) → Same s u → Leaves b c s (f a u))
        → Leaves b c s ((m >>= f) t)
    unfolding ◌>>=◌
    then-Leaves b c t m f p keeps k = go_on-Leaves b c (m t) f (Same-trans p (keeps t)) k

  lift-Same :
      {A : Type 0} (o : Outcome (Unit {0}) A) (u : SecureStream Inner Key) → Same u (lift o u).0
  unfolding lift
  lift-Same o u = Same-refl u

  gets-Same :
      {A : Type 0} (f : SecureStream Inner Key → A) (u : SecureStream Inner Key)
      → Same u (gets {E = Unit {0}} f u).0
  unfolding gets
  gets-Same f u = Same-refl u

  counts_send :
      {A : Type 0} (s u : SecureStream Inner Key) (o : Outcome (Unit {0}) ℕ) (a : A)
      → next_counter u.send_counter ≡ o
      → Same s u
      → Leaves true false s (
          go_on
            (go_on (u, o) (λ n. modify (λ t. record t { send_counter = n })))
            (λ _. lift (ok a)))
  unfolding modify lift
  counts_send s u (ok n) a e p = record {
    cipher = p.cipher;
    role = p.role;
    sent = next_counter_ok u.send_counter n e ∙ ap (λ k. k + 1) p.sent;
    received = p.received;
  }
  counts_send s u (err x) a e p = stop-Leaves s true false u (err x) (λ a h. cc) p
  counts_send s u panic a e p = stop-Leaves s true false u panic (λ a h. cc) p
  counts_send s u out_of_fuel a e p = stop-Leaves s true false u out_of_fuel (λ a h. cc) p

  counts_recv :
      {A : Type 0} (s u : SecureStream Inner Key) (o : Outcome (Unit {0}) ℕ) (a : A)
      → next_counter u.recv_counter ≡ o
      → Same s u
      → Leaves false true s (
          go_on
            (go_on (u, o) (λ n. modify (λ t. record t { recv_counter = n })))
            (λ _. lift (ok a)))
  unfolding modify lift
  counts_recv s u (ok n) a e p = record {
    cipher = p.cipher;
    role = p.role;
    sent = p.sent;
    received = next_counter_ok u.recv_counter n e ∙ ap (λ k. k + 1) p.received;
  }
  counts_recv s u (err x) a e p = stop-Leaves s false true u (err x) (λ a h. cc) p
  counts_recv s u panic a e p = stop-Leaves s false true u panic (λ a h. cc) p
  counts_recv s u out_of_fuel a e p = stop-Leaves s false true u out_of_fuel (λ a h. cc) p

  module _ (T : Transport Inner) (C : Cipher Key) where
    call_inner-Same :
        {A : Type 0} (f : Inner → Inner × Outcome (Unit {0}) A) (u : SecureStream Inner Key)
        → Same u (call_inner T C f u).0
    unfolding call_inner
    call_inner-Same f u = record { cipher = refl; role = refl; sent = refl; received = refl }

    count_send-Leaves :
        {A : Type 0} (s u : SecureStream Inner Key) (a : A)
        → Same s u
        → Leaves true false s ((count_send T C >>= λ _. lift (ok a)) u)
    unfolding count_send ◌>>=◌
    count_send-Leaves s u a p = counts_send s u _ a refl p

    count_recv-Leaves :
        {A : Type 0} (s u : SecureStream Inner Key) (a : A)
        → Same s u
        → Leaves false true s ((count_recv T C >>= λ _. lift (ok a)) u)
    unfolding count_recv ◌>>=◌
    count_recv-Leaves s u a p = counts_recv s u _ a refl p

    -- `send` counts the messages sent: its counter is one more after a success and the same after any
    -- other way out, an error of the transport after part of the message is written included. The key,
    -- the role and the other counter do not change.
    pub send-Leaves :
        (message : List ℕ) (s : SecureStream Inner Key) → Leaves true false s (send T C message s)
    unfolding send
    send-Leaves message s = then-Leaves s true false s _ _ (Same-refl s) (gets-Same _) λ self t p.
        then-Leaves s true false t _ _ p (lift-Same _) λ buffer t p.
          then-Leaves s true false t _ _ p (lift-Same _) λ whole t p.
            then-Leaves s true false t _ _ p
              (call_inner-Same
                (λ i. T.write_all i (to_be_bytes u32_len (length message + tag_len))))
              λ header t p.
                then-Leaves s true false t _ _ p (call_inner-Same (λ i. T.write_all i buffer))
                  λ body t p. count_send-Leaves s t _ p

    -- `recv` counts the messages received: its counter is one more after a success and the same after
    -- any other way out, a message that does not decrypt included. The key, the role and the other
    -- counter do not change.
    pub recv-Leaves : (s : SecureStream Inner Key) → Leaves false true s (recv T C s)
    unfolding recv
    recv-Leaves s =
        then-Leaves s false true s _ _ (Same-refl s) (call_inner-Same (λ i. T.read_exact i u32_len))
          λ len_buf t p. then-Leaves s false true t _ _ p (lift-Same _) λ long t p.
            then-Leaves s false true t _ _ p
              (call_inner-Same (λ i. T.read_exact i (from_be_bytes 0 len_buf)))
              λ buffer t p. then-Leaves s false true t _ _ p (gets-Same _) λ self t p.
                then-Leaves s false true t _ _ p (lift-Same _)
                  λ message t p. count_recv-Leaves s t _ p
