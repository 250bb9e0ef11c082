-- ===== src/Network/Objects.antt =====
-- src/networking/network.rs: the provided methods of `Network` on single objects and slices, over the
-- required ones on bytes. The encoding (postcard) is a parameter, and the messages of errors are left out.
pub mod Tests
use mpc_core.Prelude.{
  ℕ, ◌≡◌, refl, ◌∙◌, sym, subst, Bool, true, false, not, Option, none, some, List, [], ◌∷◌, length,
  Outcome, ok, err, panic, out_of_fuel, Returns, unwrap, if◌then◌else◌, ◌==◌, ==_refl, arith,
}
use mpc_core.Prelude.Runs.{Run, ◌>>=◌, ◌>>◌, lift}
use mpc_core.Execution.Contract.{Safe, >>=-Safe}

-- The required methods on bytes.
pub record ByteNetwork (Net : Type 0) : Type 0 where
  pub send : ℕ → List ℕ → Run Net (Unit {0}) ℕ
  pub broadcast : List ℕ → Run Net (Unit {0}) ℕ
  pub recv : ℕ → Run Net (Unit {0}) (List ℕ × ℕ)

-- `postcard::to_stdvec` and `postcard::from_bytes`
pub record Encoding (T : Type 0) : Type 0 where
  pub to_stdvec : List T → Option (List ℕ)
  pub from_bytes : List ℕ → Option (List T)

abbrev pub or_error : {A : Type 0} → Option A → Outcome (Unit {0}) A
or_error none = err tt
or_error (some a) = ok a

-- `count` is given and is not the number of objects.
abbrev pub is_mismatch : Option ℕ → ℕ → Bool
is_mismatch none n = false
is_mismatch (some count) n = not (n == count)

-- `vec.into_iter().next()`
abbrev pub next : {A : Type 0} → List A → Option A
next [] = none
next (a ∷ others) = some a

module _ {Net T : Type 0} (N : ByteNetwork Net) (E : Encoding T) where
  unfoldable pub send_objects : ℕ → List T → Run Net (Unit {0}) ℕ
  send_objects to objs = do bytes ← lift (or_error (E.to_stdvec objs)); N.send to bytes

  unfoldable pub send_object : ℕ → T → Run Net (Unit {0}) ℕ
  unfolding send_objects
  send_object to obj = send_objects to (obj ∷ [])

  unfoldable pub broadcast_objects : List T → Run Net (Unit {0}) ℕ
  broadcast_objects objs = do bytes ← lift (or_error (E.to_stdvec objs)); N.broadcast bytes

  unfoldable pub broadcast_object : T → Run Net (Unit {0}) ℕ
  unfolding broadcast_objects
  broadcast_object obj = broadcast_objects (obj ∷ [])

  unfoldable pub recv_objects : ℕ → Option ℕ → Run Net (Unit {0}) (List T × ℕ)
  recv_objects from count = do
    received ← N.recv from
    objs ← lift (or_error (E.from_bytes received.0))
    lift (if is_mismatch count (length objs) then err tt else ok tt)
    lift (ok (objs, received.1))

  unfoldable pub recv_object : ℕ → Run Net (Unit {0}) (T × ℕ)
  unfolding recv_objects
  recv_object from = do
    vec ← recv_objects from (some 1)
    object ← lift (unwrap (next vec.0))
    lift (ok (object, vec.1))

  -- The objects come from the bytes that were received, and are as many as was asked for.
  abbrev pub IsAnswer : Net → ℕ → Option ℕ → List T → Net → Type 0
  IsAnswer net from count objs after =
      (bytes : List ℕ) × (len : ℕ) × (N.recv from net ≡ (after, ok (bytes, len)))
      × (E.from_bytes bytes ≡ some objs)
      × (is_mismatch count (length objs) ≡ false)

  decoded :
      (P : List T → Type 0) (o : Option (List T)) (net : Net)
      → ((objs : List T) → o ≡ some objs → P objs)
      → Safe (λ objs t. (t ≡ net) × P objs) (lift (or_error o) net)
  unfolding lift Safe
  decoded P none net p = tt
  decoded P (some objs) net p = (refl, p objs refl)

  passed :
      (P : Type 0) (b : Bool) (net : Net)
      → P
      → Safe (λ _ t. (t ≡ net) × P × (b ≡ false)) (lift (if b then err tt else ok tt) net)
  unfolding lift Safe
  passed P true net p = tt
  passed P false net p = (refl, p, refl)

  received_bytes :
      (r : Net × Outcome (Unit {0}) (List ℕ × ℕ)) → Returns r.1 → Safe (λ got t. r ≡ (t, ok got)) r
  unfolding Safe
  received_bytes (t, ok got) h = refl
  received_bytes (t, err u) h = tt
  received_bytes (t, panic) h = absurd h
  received_bytes (t, out_of_fuel) h = absurd h

  answer :
      (from : ℕ) (count : Option ℕ) (net : Net) (received : List ℕ × ℕ) (objs : List T)
      (t u v : Net)
      → N.recv from net ≡ (t, ok received)
      → u ≡ t
      → v ≡ u
      → E.from_bytes received.0 ≡ some objs
      → is_mismatch count (length objs) ≡ false
      → Safe {E = Unit {0}} {A = List T × ℕ}
          (λ r w. IsAnswer net from count r.0 w)
          (v, ok (objs, received.1))
  unfolding Safe
  answer from count net received objs t u v came same again decodes agrees = (
    received.0,
    received.1,
    subst (λ w. N.recv from net ≡ (w, ok received)) (sym (again ∙ same)) came,
    decodes,
    agrees,
  )

  recv_objects-IsAnswer :
      (from : ℕ) (count : Option ℕ) (net : Net)
      → Returns (N.recv from net).1
      → Safe (λ r t. IsAnswer net from count r.0 t) (recv_objects from count net)
  unfolding recv_objects lift
  recv_objects-IsAnswer from count net h =
      >>=-Safe _ _ _ _ net (received_bytes (N.recv from net) h) λ received t came.
        >>=-Safe _ _ _ _ t
          (decoded (λ objs. E.from_bytes received.0 ≡ some objs) (E.from_bytes received.0) t
            (λ objs e. e))
          λ objs u (same, decodes).
            >>=-Safe _ _ _ _ u
              (passed (E.from_bytes received.0 ≡ some objs) (is_mismatch count (length objs)) u
                decodes)
              λ _ v (again, decodes, agrees).
                answer from count net received objs t u v came same again decodes agrees

  -- A batch that is as many as one has an object.
  one_object :
      (from : ℕ) (net : Net) (vec : List T × ℕ) (t : Net)
      → IsAnswer net from (some 1) vec.0 t
      → Safe {E = Unit {0}} {A = T × ℕ}
          (λ r u. IsAnswer net from (some 1) (r.0 ∷ []) u)
          ((lift (unwrap (next vec.0)) >>= λ object. lift (ok (object, vec.1))) t)
  unfolding Safe lift ◌>>=◌
  one_object from net ([], len) t (bytes, n, came, decodes, agrees) = cc
  one_object from net (x ∷ [], len) t (bytes, n, came, decodes, agrees) =
      (bytes, n, came, decodes, agrees)
  one_object from net (x ∷ y ∷ others, len) t (bytes, n, came, decodes, agrees) =
      absurd (ground (arith, agrees))

  -- When the receiving of bytes comes back, `recv_objects` ends with an error or with objects that the bytes
  -- of the player decode to, as many as it is asked for; and `recv_object`, whose `unwrap` does not fail,
  -- with an error or with the only object that the bytes decode to.
  pub recv_object-IsAnswer :
      (from : ℕ) (count : Option ℕ) (net : Net)
      → Returns (N.recv from net).1
      → Safe (λ r t. IsAnswer net from count r.0 t) (recv_objects from count net)
        × Safe (λ r t. IsAnswer net from (some 1) (r.0 ∷ []) t) (recv_object from net)
  unfolding recv_object
  recv_object-IsAnswer from count net h = (
    recv_objects-IsAnswer from count net h,
    >>=-Safe _ _ _ _ net (recv_objects-IsAnswer from (some 1) net h)
        λ vec t a. one_object from net vec t a,
  )
