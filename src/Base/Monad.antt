-- ===== src/Base/Monad.antt =====
-- Kernel code either returns or panics; a stateful routine passes its state along.
use Prim.Native.String.{String}
use mathlib.Core.Path.{◌≡◌}

-- `panic(s)` of console.c never returns: the machine stops. A `fault` is an access through a null
-- pointer, or out of an array. `out_of_fuel` stands for a loop that has not ended.
pub data Outcome {ℓ} (A : Type ℓ) : Type ℓ where
  ok : A → Outcome A
  panic : String → Outcome A
  fault : Outcome A
  out_of_fuel : Outcome A

-- A routine over the state `S`.
abbrev pub M : Type 0 → Type 0 → Type 0
M S A = S → Outcome (A × S)

abbrev pub pure : {S A : Type 0} → A → M S A
pure a s = ok (a, s)

infixl 5 ◌>>=◌ ◌>>◌
abbrev pub ◌>>=◌ : {S A B : Type 0} → M S A → (A → M S B) → M S B
◌>>=◌ m f s = elim (m s) [
  | ok (a, s') ↦ f a s'
  | panic e ↦ panic e
  | fault ↦ fault
  | out_of_fuel ↦ out_of_fuel
]

abbrev pub ◌>>◌ : {S B : Type 0} → M S (Unit {0}) → M S B → M S B
m >> k = m >>= λ _. k

abbrev pub stop : {S A : Type 0} → String → M S A
stop e s = panic e

abbrev pub crash : {S A : Type 0} → M S A
crash s = fault

abbrev pub get : {S : Type 0} → M S S
get s = ok (s, s)

abbrev pub put : {S : Type 0} → S → M S (Unit {0})
put t s = ok (tt, t)

-- A postcondition of the result and the final state; a panic has none.
abbrev pub Returns {ℓ} : {A : Type ℓ} → (A → Type 0) → Outcome A → Type 0
Returns P (ok a) = P a
Returns P _ = ⊥

-- A step whose result is known.
pub >>=-ok :
    {S A B : Type 0} (m : M S A) (f : A → M S B) (s s' : S) (a : A)
    → m s ≡ ok (a, s')
    → (m >>= f) s ≡ f a s'
>>=-ok m f s s' a e = rw (e, ◌>>=◌)

pub >>-ok :
    {S B : Type 0} (m : M S (Unit {0})) (k : M S B) (s s' : S)
    → m s ≡ ok (tt, s')
    → (m >> k) s ≡ k s'
>>-ok m k s s' e = rw (e, ◌>>=◌)

pub >>=-panic :
    {S A B : Type 0} (m : M S A) (f : A → M S B) (s : S) (e : String)
    → m s ≡ panic e
    → (m >>= f) s ≡ panic e
>>=-panic m f s e p = rw (p, ◌>>=◌)
