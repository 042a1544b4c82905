-- ===== src/Prelude/Decimal.antt =====
-- Numbers in template literals: `${n}` for a natural number n is its decimal digits.
use Prim.Native.Nat.{ℕ, zero, suc, ◌+◌, ◌*◌, ◌-◌, ◌/◌, ◌%◌, ◌<◌}
use mathlib.Core.Path.{◌≡◌, refl, sym, ap, ◌∙◌}
use mathlib.Core.List.{[], ◌∷◌, ◌++◌}
use native.Mathlib.Omega.{arith}
use razoragent_mesh.Prelude.Tests.{ltb, if◌then◌else◌}
use razoragent_mesh.Prelude.Text.{Text, Lacks, Lacks-append}

-- The digits with fuel: each round takes the last digit off.
digits_from : ℕ → ℕ → Text
digits_from zero n = []
digits_from (suc fuel) n =
    let more = digits_from fuel (n / 10) ++ (48 + n % 10) ∷ [] in
    if ltb n 10 then (48 + n) ∷ [] else more

unfoldable pub decimal : ℕ → Text
unfolding digits_from
decimal n = digits_from (suc n) n

-- Reading the digits back.
value_from : ℕ → Text → ℕ
value_from acc [] = acc
value_from acc (d ∷ s) = value_from (acc * 10 + (d - 48)) s

value_from-append :
    (acc : ℕ) (s t : Text) → value_from acc (s ++ t) ≡ value_from (value_from acc s) t
unfolding value_from
value_from-append acc [] t = refl
value_from-append acc (d ∷ s) t = value_from-append (acc * 10 + (d - 48)) s t

value_from-digits_from : (fuel n : ℕ) → n < fuel → value_from 0 (digits_from fuel n) ≡ n
unfolding value_from digits_from
value_from-digits_from zero n h = elim h [ ]
value_from-digits_from (suc fuel) n h = ground (
  arith,
  value_from-append 0 (digits_from fuel (n / 10)) ((48 + n % 10) ∷ []),
  value_from-digits_from fuel (n / 10),
)

-- Two numbers with the same digits are the same number.
pub decimal_injective : (m n : ℕ) → decimal m ≡ decimal n → m ≡ n
unfolding decimal
decimal_injective m n e =
    sym (value_from-digits_from (suc m) m (omega arith))
    ∙ ap (value_from 0) e
    ∙ value_from-digits_from (suc n) n (omega arith)

digits_from-Lacks : (c fuel n : ℕ) → (57 < c) → Lacks c (digits_from fuel n)
unfolding digits_from
digits_from-Lacks c zero n h = tt
digits_from-Lacks c (suc fuel) n h = ground (
  arith,
  digits_from-Lacks c fuel (n / 10) h,
  Lacks-append c (digits_from fuel (n / 10)) ((48 + n % 10) ∷ []),
)

-- The digits hold no separator above '9', such as ':' and '|'.
pub decimal-Lacks : (c n : ℕ) → 57 < c → Lacks c (decimal n)
unfolding decimal
decimal-Lacks c n h = digits_from-Lacks c (suc n) n h
