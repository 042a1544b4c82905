-- ===== src/Prelude/Dict/Remove.antt =====
-- Deleting, in a loop over a map, the entries whose value passes a test.
use mathlib.Core.Path.{◌≡◌, refl}
use mathlib.Core.Bool.{Bool}
use mathlib.Core.Option.{Option, none, some}
use mathlib.Core.Logic.{inl, inr}
use mathlib.Core.List.{[], ◌∷◌}
use native.Mathlib.Omega.{arith}
use razoragent_mesh.Prelude.Tests.{if◌then◌else◌, Bool-cases}
use razoragent_mesh.Prelude.Text.{Text, text_eq_iff}
use razoragent_mesh.Prelude.Dict.{Dict, lookup}
use razoragent_mesh.Prelude.Dict.Distinct.{IsDistinct}

module _ {ℓ} {V : Type ℓ} where
  unfoldable pub remove_if : (V → Bool) → Dict V → Dict V
  remove_if p [] = []
  remove_if p ((k, v) ∷ d) = let kept = remove_if p d in if p v then kept else (k, v) ∷ kept

  -- A looked-up value, unless the test removes it.
  abbrev pub unless : (V → Bool) → Option V → Option V
  unless p none = none
  unless p (some v) = if p v then none else some v

module _ {ℓ} {V : Type ℓ} (p : V → Bool) where
  remove_if_missing : (k : Text) (d : Dict V) → lookup k d ≡ none → lookup k (remove_if p d) ≡ none
  unfolding lookup remove_if
  remove_if_missing k [] h = refl
  remove_if_missing k ((j, v) ∷ d) h = ground (arith, remove_if_missing k d)

  pub lookup-remove_if :
      (k : Text) (d : Dict V) → IsDistinct d → lookup k (remove_if p d) ≡ unless p (lookup k d)
  unfolding lookup remove_if
  lookup-remove_if k [] h = refl
  lookup-remove_if k ((j, v) ∷ d) h =
      ground (arith, lookup-remove_if k d h.1, remove_if_missing k d, text_eq_iff j k)

  pub remove_if-IsDistinct : (d : Dict V) → IsDistinct d → IsDistinct (remove_if p d)
  unfolding remove_if
  remove_if-IsDistinct [] h = tt
  remove_if-IsDistinct ((j, v) ∷ d) h = elim (Bool-cases (p v)) [
    | inl e ↦ rw e (remove_if-IsDistinct d h.1)
    | inr e ↦ rw e (remove_if_missing j d h.0, remove_if-IsDistinct d h.1)
  ]
