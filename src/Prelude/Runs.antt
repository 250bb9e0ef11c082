-- ===== src/Prelude/Runs.antt =====
-- Methods on `&mut self`: from a state to the state they leave, on every way out, and an outcome.
use mathlib.Core.Path.{◌≡◌, refl}
use mpc_core.Prelude.Results.{Outcome, ok, err, panic, out_of_fuel}

abbrev pub Run : Type 0 → Type 0 → Type 0 → Type 0
Run St E A = St → St × Outcome E A

abbrev pub go_on : {St E A B : Type 0} → St × Outcome E A → (A → Run St E B) → St × Outcome E B
go_on (s, panic) f = (s, panic)
go_on (s, out_of_fuel) f = (s, out_of_fuel)
go_on (s, err e) f = (s, err e)
go_on (s, ok a) f = f a s

infixl 5 ◌>>=◌ ◌>>◌
unfoldable pub ◌>>=◌ : {St E A B : Type 0} → Run St E A → (A → Run St E B) → Run St E B
(m >>= f) s = go_on (m s) f

abbrev pub ◌>>◌ : {St E A B : Type 0} → Run St E A → Run St E B → Run St E B
m >> k = m >>= λ _. k

-- An outcome that leaves the state.
unfoldable pub lift : {St E A : Type 0} → Outcome E A → Run St E A
lift m s = (s, m)

unfoldable pub gets : {St E A : Type 0} → (St → A) → Run St E A
gets f s = (s, ok (f s))

unfoldable pub modify : {St E : Type 0} → (St → St) → Run St E (Unit {0})
modify f s = (f s, ok tt)

go_on-eq-ok :
    {St E A B : Type 0} (r : St × Outcome E A) (f : A → Run St E B) {t : St} {b : B}
    → go_on r f ≡ (t, ok b)
    → (s : St) × (a : A) × (r ≡ (s, ok a)) × (f a s ≡ (t, ok b))
go_on-eq-ok (s, ok a) f h = (s, a, refl, h)
go_on-eq-ok (s, err e) f h = cc
go_on-eq-ok (s, panic) f h = cc
go_on-eq-ok (s, out_of_fuel) f h = cc

-- A chain that ends well goes through an intermediate state.
pub >>=-run_ok :
    {St E A B : Type 0} (m : Run St E A) (f : A → Run St E B) (u : St) {t : St} {b : B}
    → (m >>= f) u ≡ (t, ok b)
    → (s : St) × (a : A) × (m u ≡ (s, ok a)) × (f a s ≡ (t, ok b))
unfolding ◌>>=◌
>>=-run_ok m f u h = go_on-eq-ok (m u) f h
