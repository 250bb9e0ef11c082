-- ===== src/Mesh/Peers.antt =====
-- src/networking/secure_mesh/mesh_network.rs: the channels that `from_identities` ends with.
use mpc_core.Prelude.{
  ℕ, zero, suc, ◌+◌, ◌-◌, ◌≤◌, ◌<◌, ◌≡◌, ◌≢◌, refl, ◌∙◌, ap, subst, Bool, true, false, Option, none,
  some, List, [], ◌∷◌, length, map, is_some,
}
use mpc_core.Prelude.{
  get_elem?, get_elem?-set_self, get_elem?-set_ne, get_elem?-lt, set, length-set, replicate,
  length-replicate, arith, Outcome, ok, err, >>=-eq-ok, unwrap, if◌then◌else◌, ltb, ◌==◌,
  Bool-cases, inl, inr,
}
use mpc_core.SecureStream.{SecureStream, Transport, Cipher}
use mpc_core.SecureStream.Handshake.{Curves}
use mpc_core.Mesh.{MeshNetwork}
use mpc_core.Mesh.Channels.{is_open}
use mpc_core.Mesh.Requests.{get_elem?-replicate}
use mpc_core.Mesh.Connect.{
  ConnectError, duplicate_connection, unexpected_connection, io, keep_trying, add_connection, merge,
  welcome, listen, try_establish, connect, from_identities,
}

no_error_below :
    (b : Bool) (e : ConnectError) (u : Unit {0}) → (if b then err e else ok tt) ≡ ok u → b ≡ false
no_error_below true e u h = cc
no_error_below false e u h = refl

module _ {Ch : Type 0} where
  -- The same number of channels, and the same ones below `my_id`.
  record SameBelow (my_id : ℕ) (cs next : List (Option Ch)) : Type 0 where
    size : length next ≡ length cs
    low : (q : ℕ) → q < my_id → get_elem? next q ≡ get_elem? cs q

  add_connection-SameBelow :
      (my_id peer_id : ℕ) (channel : Ch) (cs next : List (Option Ch))
      → add_connection my_id peer_id channel cs ≡ ok next
      → SameBelow my_id cs next
  unfolding add_connection
  add_connection-SameBelow my_id peer_id channel cs next h =
      let (prev, first, h) = >>=-eq-ok (unwrap (get_elem? cs peer_id)) _ h in
      let (u, second, h) =
        >>=-eq-ok (if is_some prev then err (duplicate_connection peer_id) else ok tt) _ h in
      let (v, third, h) =
        >>=-eq-ok (if ltb peer_id my_id then err (unexpected_connection peer_id) else ok tt) _ h in
      let above = no_error_below (ltb peer_id my_id) (unexpected_connection peer_id) v third in
      let same : set cs peer_id (some channel) ≡ next = cc in
      subst (SameBelow my_id cs) same (record {
        size = length-set cs peer_id (some channel);
        low = λ q lt.
            let ne : peer_id ≢ q = ground arith in get_elem?-set_ne cs peer_id q (some channel) ne;
      })

  -- The connectors' channels fill the free places from `target` on.
  merge-Opens :
      (my_id target : ℕ) (channels : List Ch) (cs : List (Option Ch))
      → target + length channels ≡ my_id
      → my_id ≤ length cs
      → ((q : ℕ) → target ≤ q → q < my_id → get_elem? cs q ≡ some none)
      → (out : List (Option Ch)) × (merge my_id target channels cs ≡ ok out)
        × (length out ≡ length cs)
        × ((q : ℕ) → target ≤ q → q < my_id → is_open (get_elem? out q) ≡ true)
        × ((q : ℕ) → q < target → get_elem? out q ≡ get_elem? cs q)
        × ((q : ℕ) → my_id ≤ q → get_elem? out q ≡ get_elem? cs q)
  unfolding merge
  merge-Opens my_id target [] cs n most free =
      (cs, refl, refl, λ q a b. absurd (omega arith), λ q a. refl, λ q a. refl)
  merge-Opens my_id target (channel ∷ channels) cs n most free =
      let next = set cs target (some channel) in
      let elsewhere = λ (q : ℕ) (ne : target ≢ q). get_elem?-set_ne cs target q (some channel) ne in
      let size = length-set cs target (some channel) in
      let (out, runs, len, opens, low, high) =
        merge-Opens my_id (suc target) channels next (omega arith) (omega (arith, size))
          (λ q a b. elsewhere q (λ e. omega (arith, e)) ∙ free q (omega arith) b) in
      let below : ltb target my_id ≡ true = ground arith in
      (
        out,
        rw (below, free target (omega arith) (omega arith)) runs,
        len ∙ size,
        λ q a b. elim (Bool-cases (target == q)) [
          | inl e ↦
              let is : target ≡ q = ground arith in
              subst (λ k. is_open (get_elem? out k) ≡ true) is
                (ap is_open (
                  low target (omega arith)
                  ∙ get_elem?-set_self cs target (some channel) (omega arith)))
          | inr e ↦ opens q (ground arith) b
        ],
        λ q a. low q (omega arith) ∙ elsewhere q (λ e. omega (arith, e)),
        λ q a. high q a ∙ elsewhere q (λ e. omega (arith, e)),
      )

module _ {Inner Key : Type 0} (T : Transport Inner) (C : Cipher Key) (X : Curves Key) where
  listen-SameBelow :
      (left my_id : ℕ) (key : List ℕ) (identities : List (List ℕ))
      (incoming : List (Outcome (Unit {0}) Inner × List ℕ))
      (cs out : List (Option (SecureStream Inner Key)))
      → listen T C X left my_id key identities incoming cs ≡ ok out
      → SameBelow my_id cs out
  unfolding listen
  listen-SameBelow (suc left) my_id key identities [] cs out h = cc
  listen-SameBelow zero my_id key identities incoming cs out h =
      let same : cs ≡ out = cc in
      subst (SameBelow my_id cs) same (record { size = refl; low = λ q lt. refl })
  listen-SameBelow (suc left) my_id key identities ((accepted, secret) ∷ incoming) cs out h =
      let (stream, first, h) = >>=-eq-ok (io accepted) _ h in
      let (guest, second, h) = >>=-eq-ok (welcome T C X key identities secret stream) _ h in
      let (next, third, h) = >>=-eq-ok (add_connection my_id guest.0 guest.1 cs) _ h in
      let here = add_connection-SameBelow my_id guest.0 guest.1 cs next third in
      let later = listen-SameBelow left my_id key identities incoming next out h in
      record { size = later.size ∙ here.size; low = λ q lt. later.low q lt ∙ here.low q lt }

  connect-length :
      (my_id : ℕ) (key : List ℕ) (identities : List (List ℕ)) (target : ℕ)
      (outgoing : List (List (Outcome (Unit {0}) Inner × List ℕ)))
      (channels : List (SecureStream Inner Key))
      → connect T C X my_id key identities target outgoing ≡ ok channels
      → length channels ≡ length outgoing
  unfolding connect
  connect-length my_id key identities target [] channels h =
      let same : [] ≡ channels = cc in subst (λ l. length l ≡ 0) same refl
  connect-length my_id key identities target (attempts ∷ others) channels h =
      let (k, first, h) = >>=-eq-ok (unwrap (get_elem? identities target)) _ h in
      let (channel, second, h) =
        >>=-eq-ok (keep_trying (map (λ a. try_establish T C X my_id key k a.1 a.0) attempts)) _ h in
      let (rest, third, h) =
        >>=-eq-ok (connect T C X my_id key identities (suc target) others) _ h in
      let same : channel ∷ rest ≡ channels = cc in
      subst (λ l. length l ≡ suc (length others)) same
        (ap suc (connect-length my_id key identities (suc target) others rest third))

  -- When the listener and the connectors of all players below `my_id` succeed, putting their channels
  -- together does not fail: the network has a place for each player, a channel to each one below `my_id`,
  -- and above that what the listener has accepted.
  pub from_identities-Opens :
      (my_id : ℕ) (key : List ℕ) (identities : List (List ℕ))
      (incoming : List (Outcome (Unit {0}) Inner × List ℕ))
      (outgoing : List (List (Outcome (Unit {0}) Inner × List ℕ)))
      (channels : List (SecureStream Inner Key))
      (connections : List (Option (SecureStream Inner Key)))
      → my_id < length identities
      → length outgoing ≡ my_id
      → connect T C X my_id key identities 0 outgoing ≡ ok channels
      → listen T C X
          (length identities - 1 - my_id)
          my_id
          key
          identities
          incoming
          (replicate (length identities) none)
        ≡ ok connections
      → (mesh : MeshNetwork (SecureStream Inner Key)) × (from_identities T C X my_id key identities
            (ok tt)
            incoming
            outgoing
          ≡ ok mesh)
        × (mesh.my_id ≡ my_id)
        × (length mesh.channels ≡ length identities)
        × ((p : ℕ) → p < my_id → is_open (get_elem? mesh.channels p) ≡ true)
        × ((p : ℕ) → my_id ≤ p → get_elem? mesh.channels p ≡ get_elem? connections p)
  unfolding from_identities
  from_identities-Opens my_id key identities incoming outgoing channels connections lt n connected
        listened =
      let (identity, at) = get_elem?-lt identities my_id lt in
      let heard =
        listen-SameBelow (length identities - 1 - my_id) my_id key identities incoming _ connections
          listened in
      let size : length connections ≡ length identities =
        heard.size ∙ length-replicate (length identities) none in
      let (out, runs, len, opens, low, high) =
        merge-Opens my_id 0 channels connections
          (omega (arith, connect-length my_id key identities 0 outgoing channels connected))
          (omega (arith, size))
          (λ q a b. heard.low q b ∙ get_elem?-replicate (length identities) q none (omega arith)) in
      (
        record { my_id = my_id; n_parties = length identities; channels = out },
        rw (at, connected, listened, runs) refl,
        refl,
        len ∙ size,
        λ p b. opens p (omega arith) b,
        high,
      )
