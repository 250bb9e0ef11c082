-- ===== src/Execution/Contract.antt =====
-- What `ExecutionContext` relies on in a scheme and in a network, and what it means that a method
-- neither panics nor runs for ever.
use mpc_core.Prelude.{◌≡◌, true, List, [], length, concat, All}
use mpc_core.Prelude.{Outcome, ok, err, panic, out_of_fuel}
use mpc_core.Prelude.Runs.{Run, ◌>>=◌, go_on}
use mpc_core.Network.{Network, Matches}
use mpc_core.Scheme.{MpcScheme}

-- The call comes back, and after a success `P` holds of its result and of the state that it leaves.
unfoldable pub Safe : {St E A : Type 0} → (A → St → Type 0) → St × Outcome E A → Type 0
Safe P (s, ok a) = P a s
Safe P (s, err e) = Unit
Safe P (s, panic) = ⊥
Safe P (s, out_of_fuel) = ⊥

pub go_on-Safe :
    {St E A B : Type 0} (P : A → St → Type 0) (Q : B → St → Type 0) (r : St × Outcome E A)
    (f : A → Run St E B)
    → Safe P r
    → ((a : A) (t : St) → P a t → Safe Q (f a t))
    → Safe Q (go_on r f)
unfolding Safe
go_on-Safe P Q (t, ok a) f p k = k a t p
go_on-Safe P Q (t, err e) f p k = tt
go_on-Safe P Q (t, panic) f p k = absurd p
go_on-Safe P Q (t, out_of_fuel) f p k = absurd p

pub >>=-Safe :
    {St E A B : Type 0} (P : A → St → Type 0) (Q : B → St → Type 0) (m : Run St E A)
    (f : A → Run St E B) (s : St)
    → Safe P (m s)
    → ((a : A) (t : St) → P a t → Safe Q (f a t))
    → Safe Q ((m >>= f) s)
unfolding ◌>>=◌
>>=-Safe P Q m f s p k = go_on-Safe P Q (m s) f p k

pub Safe-imp :
    {St E A : Type 0} (P Q : A → St → Type 0) (r : St × Outcome E A)
    → ((a : A) (s : St) → P a s → Q a s)
    → Safe P r
    → Safe Q r
unfolding Safe
Safe-imp P Q (s, ok a) f p = f a s p
Safe-imp P Q (s, err e) f p = tt
Safe-imp P Q (s, panic) f p = absurd p
Safe-imp P Q (s, out_of_fuel) f p = absurd p

module _ {Net : Type 0} (S : MpcScheme Net) where
  open S use {gates, Context, NetworkElement, Wire, do_network_phase, do_finalize_phase}

  -- The contract of a scheme: a context is established or that fails; with a value for each input, a network phase fails or says what it waits
  -- for; a local operation sends and waits for nothing; with what it waits for, the final phase fails or
  -- gives a value for each output. `IsElement` holds of what honest players send.
  pub record IsContract (IsValue : Wire → Type 0) (IsElement : NetworkElement → Type 0)
      : Type 0 where
    pub establishes :
        (net : Net) (circuit : _) → Safe (λ c n. Unit {0}) (S.establish_context net circuit)
    pub phases :
        (context : Context) (op : gates.Operation) (ins : List Wire)
        → length ins ≡ length (gates.inputs op)
        → All IsValue ins
        → Safe
            (λ out c.
              (gates.is_operation_local op ≡ true
                → (out.send_request ≡ []) × (out.receive_request ≡ []))
              × ((later : Context) (batches : List (List NetworkElement))
                  → Matches out.receive_request batches
                  → All IsElement (concat batches)
                  → Safe
                      (λ ws c. (length ws ≡ length (gates.outputs op)) × All IsValue ws)
                      (do_finalize_phase later out.pending (concat batches))))
            (do_network_phase context op ins)

  -- The contract of a network: its calls fail or succeed, and what is received matches the requests.
  pub record IsHonest {Hash : Type 0} (N : Network Net Hash NetworkElement)
      (IsElement : NetworkElement → Type 0) : Type 0 where
    pub broadcasts : (net : Net) (hash : Hash) → Safe (λ n t. Unit {0}) (N.broadcast_hash net hash)
    pub receives_hashes :
        (net : Net) (requests : _) → Safe (λ r t. Matches requests r.0) (N.recv_hashes net requests)
    pub sends :
        (net : Net) (requests : _) → Safe (λ n t. Unit {0}) (N.send_objects_many net requests)
    pub receives :
        (net : Net) (requests : _)
        → Safe
            (λ r t. Matches requests r.0 × All IsElement (concat r.0))
            (N.recv_objects_many net requests)
