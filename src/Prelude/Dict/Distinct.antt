-- ===== src/Prelude/Dict/Distinct.antt =====
-- Maps with at most one entry for each key, which is what the operations build.
use mathlib.Core.Path.{◌≡◌, refl}
use mathlib.Core.Option.{none}
use mathlib.Core.List.{[], ◌∷◌}
use native.Mathlib.Omega.{arith}
use razoragent_mesh.Prelude.Text.{Text, text_eq_iff}
use razoragent_mesh.Prelude.Dict.{Dict, lookup, insert, erase, lookup-insert, lookup-erase}

module _ {ℓ} {V : Type ℓ} where
  abbrev pub IsDistinct : Dict V → Type ℓ
  IsDistinct [] = Unit
  IsDistinct ((k, v) ∷ d) = (lookup k d ≡ none) × IsDistinct d

module _ {ℓ} {V : Type ℓ} where
  pub insert-IsDistinct : (k : Text) (v : V) (d : Dict V) → IsDistinct d → IsDistinct (insert k v d)
  unfolding insert lookup
  insert-IsDistinct k v [] h = (refl, tt)
  insert-IsDistinct k v ((j, w) ∷ d) h =
      ground (
        arith,
        text_eq_iff j k,
        text_eq_iff k j,
        lookup-insert k j v d,
        insert-IsDistinct k v d h.1,
      )

  pub erase-IsDistinct : (k : Text) (d : Dict V) → IsDistinct d → IsDistinct (erase k d)
  unfolding erase lookup
  erase-IsDistinct k [] h = tt
  erase-IsDistinct k ((j, w) ∷ d) h = ground (arith, lookup-erase k j d, erase-IsDistinct k d h.1)

  pub erase_of_missing : (k : Text) (d : Dict V) → lookup k d ≡ none → erase k d ≡ d
  unfolding erase lookup
  erase_of_missing k [] h = refl
  erase_of_missing k ((j, w) ∷ d) h = ground (arith, erase_of_missing k d)
