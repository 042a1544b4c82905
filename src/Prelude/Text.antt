-- ===== src/Prelude/Text.antt =====
-- JavaScript strings as sequences of code units, with `===`, `trim` and `toUpperCase`.
-- `toUpperCase` is exact for ASCII letters and leaves every other code unit as it is.
use Prim.Native.Nat.{ℕ, ◌+◌, ◌-◌}
use Prim.Native.Char.{code}
use Prim.Native.String.{String}
use mathlib.Core.Path.{◌≡◌, refl}
use mathlib.Core.Logic.{◌↔◌, ◌≢◌}
use mathlib.Core.Bool.{Bool, true, false, not, ◌&&◌, ◌||◌}
use mathlib.Core.List.{List, [], ◌∷◌, ◌++◌, map, reverse}
use native.Mathlib.Omega.{arith}
use razoragent_mesh.Prelude.Tests.{leb, ◌==◌, if◌then◌else◌}

abbrev pub Text : Type 0
Text = List ℕ

abbrev pub codes : String → Text
codes String.[] = []
codes (String.◌∷◌ c s) = code c ∷ codes s

unfoldable pub text_eq : Text → Text → Bool
text_eq [] [] = true
text_eq (a ∷ s) (b ∷ t) = a == b && text_eq s t
text_eq _ _ = false

pub text_eq_iff : (s t : Text) → (text_eq s t ≡ true) ↔ (s ≡ t)
unfolding text_eq
text_eq_iff [] [] = ground arith
text_eq_iff (a ∷ s) (b ∷ t) = ground (arith, text_eq_iff s t)
text_eq_iff [] (b ∷ t) = ground arith
text_eq_iff (a ∷ s) [] = ground arith

pub text_eq_refl : (s : Text) → text_eq s s ≡ true
text_eq_refl s = (text_eq_iff s s).1 refl

-- The white space that `trim` removes.
unfoldable pub is_space : ℕ → Bool
is_space c =
    leb 9 c && leb c 13
    || c == 32
    || c == 160
    || c == 0x1680
    || leb 0x2000 c && leb c 0x200A
    || c == 0x2028
    || c == 0x2029
    || c == 0x202F
    || c == 0x205F
    || c == 0x3000
    || c == 0xFEFF

unfoldable pub trim_start : Text → Text
trim_start [] = []
trim_start (c ∷ s) = if is_space c then trim_start s else c ∷ s

unfoldable pub trim : Text → Text
unfolding is_space trim_start
trim s = reverse (trim_start (reverse (trim_start s)))

unfoldable pub upper : ℕ → ℕ
upper c = if leb b'a' c && leb c b'z' then c - 32 else c

-- `s.trim().toUpperCase()`
unfoldable pub normalise : Text → Text
unfolding trim upper
normalise s = map upper (trim s)

-- The text holds no code unit `c`.
abbrev pub Lacks : ℕ → Text → Type 0
Lacks c [] = Unit
Lacks c (d ∷ s) = (d ≢ c) × Lacks c s

abbrev pub lacks : ℕ → Text → Bool
lacks c [] = true
lacks c (d ∷ s) = not (d == c) && lacks c s

pub Lacks-of_lacks : (c : ℕ) (s : Text) → lacks c s ≡ true → Lacks c s
Lacks-of_lacks c [] e = tt
Lacks-of_lacks c (d ∷ s) e = ground (arith, Lacks-of_lacks c s)

pub Lacks-append : (c : ℕ) (s t : Text) → Lacks c s → Lacks c t → Lacks c (s ++ t)
Lacks-append c [] t h k = k
Lacks-append c (d ∷ s) t (p, h) k = (p, Lacks-append c s t h k)

-- Two texts that end at the first separator are cut there in one way.
pub split_unique :
    (c : ℕ) (s s' t t' : Text)
    → Lacks c s
    → Lacks c s'
    → s ++ (c ∷ t) ≡ s' ++ (c ∷ t')
    → (s ≡ s') × (t ≡ t')
split_unique c [] [] t t' h h' e = (refl, cc)
split_unique c [] (d ∷ s') t t' h (p, h') e = absurd (p (cc))
split_unique c (d ∷ s) [] t t' (p, h) h' e = absurd (p (cc))
split_unique c (d ∷ s) (d' ∷ s') t t' (p, h) (p', h') e =
    ground (arith, split_unique c s s' t t' h h')

unfoldable pub lower : ℕ → ℕ
lower c = if leb b'A' c && leb c b'Z' then c + 32 else c

-- `s.toLowerCase()`, exact for ASCII letters.
unfoldable pub lower_case : Text → Text
unfolding lower
lower_case s = map lower s
