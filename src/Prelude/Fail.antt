-- ===== src/Prelude/Fail.antt =====
-- A call that returns or throws: `fine v` is a normal return, `thrown e` the exception that leaves it.
use mathlib.Core.Path.{◌≡◌, refl}
use mathlib.Core.Bool.{Bool, true, false}

pub data Fallible (E A : Type 0) : Type 0 where
  fine : A → Fallible E A
  thrown : E → Fallible E A

infixl 5 ◌>>=◌ ◌>>◌
abbrev pub ◌>>=◌ : {E A B : Type 0} → Fallible E A → (A → Fallible E B) → Fallible E B
fine a >>= f = f a
thrown e >>= f = thrown e

abbrev pub ◌>>◌ : {E B : Type 0} → Fallible E (Unit {0}) → Fallible E B → Fallible E B
m >> k = m >>= λ _. k

-- `if (b) throw e;`
abbrev pub throw_if : {E : Type 0} → Bool → E → Fallible E (Unit {0})
throw_if true e = thrown e
throw_if false e = fine tt

pub >>=-eq-fine :
    {E A B : Type 0} (m : Fallible E A) (f : A → Fallible E B) {b : B}
    → (m >>= f) ≡ fine b
    → (a : A) × (m ≡ fine a) × (f a ≡ fine b)
>>=-eq-fine (fine a) f h = (a, refl, h)
>>=-eq-fine (thrown e) f h = cc

pub >>-eq-fine :
    {E B : Type 0} (m : Fallible E (Unit {0})) (k : Fallible E B) {b : B}
    → (m >> k) ≡ fine b
    → (m ≡ fine tt) × (k ≡ fine b)
>>-eq-fine (fine tt) k h = (refl, h)
>>-eq-fine (thrown e) k h = cc
