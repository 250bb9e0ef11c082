-- ===== src/Mesh/Tasks.antt =====
-- src/networking/secure_mesh/mesh_network.rs: the tasks that `send_objects_many` and `recv_objects_many`
-- join, and how a message's objects are split over the requests for it.
use mpc_core.Prelude.{
  ℕ, zero, suc, ◌+◌, ◌≤◌, ◌<◌, ◌≡◌, refl, ◌∙◌, ap, subst, Bool-cases, inl, inr, Option, none, some,
  List, [], ◌∷◌, ◌++◌, length, map, concat,
}
use mpc_core.Prelude.{
  take, drop, Outcome, ok, err, panic, out_of_fuel, ◌>>=◌, >>=-eq-ok, Returns, if◌then◌else◌, ltb,
  arith,
}
use mpc_core.Network.{expected}
use mpc_core.Mesh.{
  Channel, MeshError, send_failure, recv_failure, deserialization, too_few, left_over, io_failure,
  or_fail,
}

-- Splitting the objects of a message according to the counts of the requests for it.
unfoldable pub split_counts :
    {T : Type 0} → List (ℕ × Option ℕ) → List T → Outcome MeshError (List (ℕ × List T))
split_counts [] [] = ok []
split_counts [] (object ∷ objects) = err left_over
split_counts ((index, count) ∷ counts) objects =
    let rest = split_counts counts (drop (expected count) objects) in
    if ltb (length objects) (expected count)
    then err too_few
    else (rest >>= λ chunks. ok ((index, take (expected count) objects) ∷ chunks))

module _ {Ch : Type 0} (C : Channel Ch) where
  unfoldable pub send_task : ℕ × (List ℕ × Ch) → Outcome MeshError (ℕ × (ℕ × Ch))
  send_task (to, (bytes, channel)) = io_failure send_failure (C.send channel bytes).1 >>= λ len.
      ok (len, (to, (C.send channel bytes).0))

  unfoldable pub receive_task :
      {T : Type 0}
      → (List ℕ → Option (List T))
      → ℕ × (List (ℕ × Option ℕ) × Ch)
      → Outcome MeshError (ℕ × (ℕ × (Ch × List (ℕ × List T))))
  unfolding split_counts
  receive_task from_bytes (from, (counts, channel)) =
      io_failure recv_failure (C.recv channel).1 >>= λ received.
      or_fail deserialization (from_bytes received.0) >>= λ objects.
      split_counts counts objects >>= λ objects_list.
      ok (received.1, (from, ((C.recv channel).0, objects_list)))

abbrev pub counted : List (ℕ × Option ℕ) → ℕ
counted [] = 0
counted ((index, count) ∷ counts) = expected count + counted counts

-- The chunks are for the indices of the counts, each of as many objects as expected.
abbrev pub AreChunks : {T : Type 0} → List (ℕ × Option ℕ) → List (ℕ × List T) → Type 0
AreChunks [] [] = Unit
AreChunks ((index, count) ∷ counts) ((at, chunk) ∷ chunks) =
    (at ≡ index) × (length chunk ≡ expected count) × AreChunks counts chunks
AreChunks [] (chunk ∷ chunks) = ⊥
AreChunks (c ∷ counts) [] = ⊥

module _ {T : Type 0} where
  length-drop-take :
      (n : ℕ) (xs : List T)
      → n ≤ length xs
      → (length (take n xs) ≡ n) × (length (drop n xs) + n ≡ length xs)
  length-drop-take zero xs h = (refl, omega arith)
  length-drop-take (suc n) [] h = absurd (omega arith)
  length-drop-take (suc n) (x ∷ xs) h =
      let (t, d) = length-drop-take n xs (omega arith) in (omega (arith, t), omega (arith, d))

  take-drop : (n : ℕ) (xs : List T) → take n xs ++ drop n xs ≡ xs
  take-drop zero xs = refl
  take-drop (suc n) [] = refl
  take-drop (suc n) (x ∷ xs) = ap (λ l. x ∷ l) (take-drop n xs)

  -- A message with as many objects as its requests expect is split into their chunks, in order and
  -- without a loss; one with fewer or more objects is refused.
  pub split_counts_lem :
      (counts : List (ℕ × Option ℕ)) (objects : List T)
      → (length objects ≡ counted counts
          → (chunks : List (ℕ × List T)) × (split_counts counts objects ≡ ok chunks)
            × AreChunks counts chunks
            × (concat (map (λ c. c.1) chunks) ≡ objects))
        × (length objects < counted counts → split_counts counts objects ≡ err too_few)
        × (counted counts < length objects → split_counts counts objects ≡ err left_over)
  unfolding split_counts
  split_counts_lem [] [] =
      (λ e. ([], refl, tt, refl), λ h. absurd (omega arith), λ h. absurd (omega arith))
  split_counts_lem [] (x ∷ xs) = (λ e. absurd (omega arith), λ h. absurd (omega arith), λ h. refl)
  split_counts_lem ((index, count) ∷ counts) objects =
      elim (Bool-cases (ltb (length objects) (expected count))) [
        | inl few ↦ (λ e. absurd (ground arith), λ h. rw few refl, λ h. absurd (ground arith))
        | inr enough ↦
            let n = expected count in
            let (t, d) = length-drop-take n objects (ground arith) in
            let (good, low, high) = split_counts_lem counts (drop n objects) in
            (
              λ e.
                  let (chunks, runs, are, whole) = good (omega arith) in
                  (
                    (index, take n objects) ∷ chunks,
                    rw (enough, runs) refl,
                    (refl, t, are),
                    ap (λ l. take n objects ++ l) whole ∙ take-drop n objects,
                  ),
              λ h. rw (enough, low (omega arith)) refl,
              λ h. rw (enough, high (omega arith)) refl,
            )
      ]

io_failure-Returns :
    {A : Type 0} (e : MeshError) (o : Outcome (Unit {0}) A) → Returns o → Returns (io_failure e o)
io_failure-Returns e (ok a) h = tt
io_failure-Returns e (err u) h = tt
io_failure-Returns e panic h = absurd h
io_failure-Returns e out_of_fuel h = absurd h

>>=-Returns :
    {E A B : Type 0} (o : Outcome E A) (f : A → Outcome E B)
    → Returns o
    → ((a : A) → Returns (f a))
    → Returns (o >>= f)
>>=-Returns (ok a) f h k = k a
>>=-Returns (err e) f h k = tt
>>=-Returns panic f h k = absurd h
>>=-Returns out_of_fuel f h k = absurd h

split_counts-Returns :
    {T : Type 0} (counts : List (ℕ × Option ℕ)) (objects : List T)
    → Returns (split_counts counts objects)
split_counts-Returns counts objects =
    let (good, low, high) = split_counts_lem counts objects in
    elim (Bool-cases (ltb (length objects) (counted counts))) [
      | inl e ↦ rw (low (ground arith)) tt
      | inr e ↦ elim (Bool-cases (ltb (counted counts) (length objects))) [
        | inl f ↦ rw (high (ground arith)) tt
        | inr f ↦ let (chunks, runs, are, whole) = good (ground arith) in rw runs tt
      ]
    ]

split_counts-AreChunks :
    {T : Type 0} (counts : List (ℕ × Option ℕ)) (objects : List T) (chunks : List (ℕ × List T))
    → split_counts counts objects ≡ ok chunks
    → AreChunks counts chunks
split_counts-AreChunks counts objects chunks h =
    let (good, low, high) = split_counts_lem counts objects in
    elim (Bool-cases (ltb (length objects) (counted counts))) [
      | inl e ↦ let bad = low (ground arith) in cc
      | inr e ↦ elim (Bool-cases (ltb (counted counts) (length objects))) [
        | inl f ↦ let bad = high (ground arith) in cc
        | inr f ↦
            let (found, runs, are, whole) = good (ground arith) in
            let same : found ≡ chunks = cc in subst (AreChunks counts) same are
      ]
    ]

or_fail-Returns : {A : Type 0} (e : MeshError) (o : Option A) → Returns (or_fail e o)
or_fail-Returns e none = tt
or_fail-Returns e (some a) = tt

module _ {Ch : Type 0} (C : Channel Ch) where
  pub receive_task-Returns :
      {T : Type 0} (from_bytes : List ℕ → Option (List T))
      → ((c : Ch) → Returns (C.recv c).1)
      → (t : ℕ × (List (ℕ × Option ℕ) × Ch)) → Returns (receive_task C from_bytes t)
  unfolding receive_task
  receive_task-Returns from_bytes receives (from, (counts, channel)) =
      >>=-Returns _ _ (io_failure-Returns recv_failure _ (receives channel)) λ received.
        >>=-Returns _ _ (or_fail-Returns deserialization _)
          λ objects. >>=-Returns _ _ (split_counts-Returns counts objects) λ chunks. tt

  -- A task's result is for its player, with the chunks of its requests.
  pub receive_task-AreChunks :
      {T : Type 0} (from_bytes : List ℕ → Option (List T)) (t : ℕ × (List (ℕ × Option ℕ) × Ch))
      (r : ℕ × (ℕ × (Ch × List (ℕ × List T))))
      → receive_task C from_bytes t ≡ ok r
      → (r.1.0 ≡ t.0) × AreChunks t.1.0 r.1.1.1
  unfolding receive_task
  receive_task-AreChunks from_bytes (from, (counts, channel)) (len, (source, (after, list))) e =
      let (received, first, e) = >>=-eq-ok (io_failure recv_failure (C.recv channel).1) _ e in
      let (objects, second, e) = >>=-eq-ok (or_fail deserialization (from_bytes received.0)) _ e in
      let (chunks, third, e) = >>=-eq-ok (split_counts counts objects) _ e in
      let same : source ≡ from = cc in
      let is : chunks ≡ list = cc in
      (same, subst (AreChunks counts) is (split_counts-AreChunks counts objects chunks third))

  pub send_task-Returns :
      ((c : Ch) (bytes : List ℕ) → Returns (C.send c bytes).1)
      → (t : ℕ × (List ℕ × Ch)) → Returns (send_task C t)
  unfolding send_task
  send_task-Returns sends (to, (bytes, channel)) =
      >>=-Returns _ _ (io_failure-Returns send_failure _ (sends channel bytes)) (λ len. tt)

  pub send_task-target :
      (t : ℕ × (List ℕ × Ch)) (r : ℕ × (ℕ × Ch)) → send_task C t ≡ ok r → r.1.0 ≡ t.0
  unfolding send_task
  send_task-target (to, (bytes, channel)) (len, (target, after)) e =
      let (l, runs, same) =
        >>=-eq-ok (io_failure send_failure (C.send channel bytes).1)
          (λ l. ok (l, (to, (C.send channel bytes).0))) e in
      cc
