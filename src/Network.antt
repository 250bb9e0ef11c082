-- ===== src/Network.antt =====
-- src/networking/network.rs: the requests that a scheme makes of the network.
pub mod Objects
use mpc_core.Prelude.{ℕ, zero, suc, ◌≡◌, Option, none, some, List, [], ◌∷◌, length, Outcome}

-- `count` is a `NonZero`, so `none` stands for zero.
pub record ReceiveRequest : Type 0 where
  pub from : ℕ
  pub count : Option ℕ

-- `NonZero::new`
abbrev pub non_zero : ℕ → Option ℕ
non_zero zero = none
non_zero (suc n) = some (suc n)

abbrev pub receive_request : ℕ → ℕ → ReceiveRequest
receive_request from count = record { from = from; count = non_zero count }

-- The payload, whether borrowed or owned.
pub record SendRequest (T : Type 0) : Type 0 where
  pub to : ℕ
  pub payload : T

abbrev pub send_request : {T : Type 0} → ℕ → T → SendRequest T
send_request to payload = record { to = to; payload = payload }

-- The trait `Network` as the executor uses it, at the two types of objects that it exchanges: the
-- circuit's hash, and the scheme's elements. Every call gives the network that it leaves.
pub record Network (Net Hash Element : Type 0) : Type 0 where
  pub n_players : Net → ℕ
  pub my_id : Net → ℕ
  pub broadcast_hash : Net → Hash → Net × Outcome (Unit {0}) ℕ
  pub recv_hashes : Net → List ReceiveRequest → Net × Outcome (Unit {0}) (List (List Hash) × ℕ)
  pub send_objects_many : Net → List (SendRequest Element) → Net × Outcome (Unit {0}) ℕ
  pub recv_objects_many :
      Net → List ReceiveRequest → Net × Outcome (Unit {0}) (List (List Element) × ℕ)

-- `count.map(|c| c.get()).unwrap_or(1)`, the number of objects that the mesh network waits for.
abbrev pub expected : Option ℕ → ℕ
expected none = 1
expected (some c) = c

-- Each request has its batch, of as many objects as are expected.
abbrev pub Matches : {T : Type 0} → List ReceiveRequest → List (List T) → Type 0
Matches [] [] = Unit
Matches (r ∷ rs) (b ∷ bs) = (length b ≡ expected r.count) × Matches rs bs
Matches [] (b ∷ bs) = ⊥
Matches (r ∷ rs) [] = ⊥
