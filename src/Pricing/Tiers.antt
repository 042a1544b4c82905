-- ===== src/Pricing/Tiers.antt =====
-- Which volume tier `findMatchingVolumeTier` picks: the sorted scan against the unsorted list.
use razoragent_mesh.Prelude.{
  ℕ, ◌≤◌, ◌<◌, ◌≡◌, ◌⊎◌, refl, subst, List, [], ◌∷◌, Option, none, some, inl, inr, All, Member, leb,
  arith, Bool-cases,
}
use razoragent_mesh.Pricing.Data.{VolumeTier}
use razoragent_mesh.Pricing.Volume.{find_matching_volume_tier, find_tier, sort_tiers, insert_tier}

-- Sorting keeps what holds of every tier, both ways.
module _ {κ} (P : VolumeTier → Type κ) where
  insert_tier-All :
      (t : VolumeTier) (ts : List VolumeTier) → P t → All P ts → All P (insert_tier t ts)
  unfolding insert_tier
  insert_tier-All t [] p h = (p, tt)
  insert_tier-All t (u ∷ us) p (q, h) = elim (Bool-cases (leb u.min_quantity t.min_quantity)) [
    | inl e ↦ rw e (p, (q, h))
    | inr e ↦ rw e (q, insert_tier-All t us p h)
  ]

  sort_tiers-All : (ts : List VolumeTier) → All P ts → All P (sort_tiers ts)
  unfolding sort_tiers
  sort_tiers-All [] h = tt
  sort_tiers-All (t ∷ ts) (p, h) = insert_tier-All t (sort_tiers ts) p (sort_tiers-All ts h)

  All-of_insert_tier :
      (t : VolumeTier) (ts : List VolumeTier) → All P (insert_tier t ts) → P t × All P ts
  unfolding insert_tier
  All-of_insert_tier t [] h = h
  All-of_insert_tier t (u ∷ us) h = elim (Bool-cases (leb u.min_quantity t.min_quantity)) [
    | inl e ↦ (rw e at h)
    | inr e ↦ let (q, k) = (rw e at h) in let (p, k') = All-of_insert_tier t us k in (p, (q, k'))
  ]

  All-of_sort_tiers : (ts : List VolumeTier) → All P (sort_tiers ts) → All P ts
  unfolding sort_tiers
  All-of_sort_tiers [] h = tt
  All-of_sort_tiers (t ∷ ts) h =
      let (p, k) = All-of_insert_tier t (sort_tiers ts) h in (p, All-of_sort_tiers ts k)

  find_tier-All :
      (q : ℕ) (ts : List VolumeTier) (t : VolumeTier) → All P ts → find_tier q ts ≡ some t → P t
  unfolding find_tier
  find_tier-All q [] t h e = cc
  find_tier-All q (u ∷ us) t (p, h) e = elim (Bool-cases (leb u.min_quantity q)) [
    | inl b ↦ subst P (ground arith) p
    | inr b ↦ find_tier-All q us t h (ground arith)
  ]

  pub find_matching_volume_tier-All :
      (q : ℕ) (ts : List VolumeTier) (t : VolumeTier)
      → All P ts
      → find_matching_volume_tier q ts ≡ some t
      → P t
  unfolding find_matching_volume_tier
  find_matching_volume_tier-All q ts t h e =
      find_tier-All q (sort_tiers ts) t (sort_tiers-All ts h) e

abbrev IsDescending : List VolumeTier → Type 0
IsDescending [] = Unit
IsDescending (t ∷ ts) = All (λ u. u.min_quantity ≤ t.min_quantity) ts × IsDescending ts

All-le_trans :
    (m n : ℕ) (ts : List VolumeTier)
    → m ≤ n
    → All (λ u. u.min_quantity ≤ m) ts
    → All (λ u. u.min_quantity ≤ n) ts
All-le_trans m n [] h k = tt
All-le_trans m n (t ∷ ts) h (p, k) = (omega arith, All-le_trans m n ts h k)

insert_tier-IsDescending :
    (t : VolumeTier) (ts : List VolumeTier) → IsDescending ts → IsDescending (insert_tier t ts)
unfolding insert_tier
insert_tier-IsDescending t [] h = (tt, tt)
insert_tier-IsDescending t (u ∷ us) (h, k) = elim (Bool-cases (leb u.min_quantity t.min_quantity)) [
  | inl e ↦
      rw e ((ground arith, All-le_trans u.min_quantity t.min_quantity us (ground arith) h), (h, k))
  | inr e ↦ rw e (
    insert_tier-All (λ v. v.min_quantity ≤ u.min_quantity) t us (ground arith) h,
    insert_tier-IsDescending t us k,
  )
]

sort_tiers-IsDescending : (ts : List VolumeTier) → IsDescending (sort_tiers ts)
unfolding sort_tiers
sort_tiers-IsDescending [] = tt
sort_tiers-IsDescending (t ∷ ts) =
    insert_tier-IsDescending t (sort_tiers ts) (sort_tiers-IsDescending ts)

-- A minimum that `q` does not reach, or that is at most `m`.
abbrev pub IsAtMostIfReached : ℕ → ℕ → VolumeTier → Type 0
IsAtMostIfReached q m u = (q < u.min_quantity) ⊎ (u.min_quantity ≤ m)

-- `r` is the tier of the largest minimum that `q` reaches, or none reaches it.
abbrev pub IsLargestReached : ℕ → List VolumeTier → Option VolumeTier → Type 0
IsLargestReached q ts none = All (λ u. q < u.min_quantity) ts
IsLargestReached q ts (some t) =
    (t.min_quantity ≤ q) × Member t ts × All (IsAtMostIfReached q t.min_quantity) ts

All-weaken :
    (q m : ℕ) (ts : List VolumeTier)
    → All (λ u. u.min_quantity ≤ m) ts
    → All (IsAtMostIfReached q m) ts
All-weaken q m [] h = tt
All-weaken q m (t ∷ ts) (p, h) = (inr p, All-weaken q m ts h)

skip-IsLargestReached :
    (q : ℕ) (u : VolumeTier) (us : List VolumeTier) (r : Option VolumeTier)
    → q < u.min_quantity
    → IsLargestReached q us r
    → IsLargestReached q (u ∷ us) r
skip-IsLargestReached q u us none h k = (h, k)
skip-IsLargestReached q u us (some t) h (a, b, c) = (a, inr b, (inl h, c))

find_tier-IsLargestReached :
    (q : ℕ) (ts : List VolumeTier) → IsDescending ts → IsLargestReached q ts (find_tier q ts)
unfolding find_tier
find_tier-IsLargestReached q [] h = tt
find_tier-IsLargestReached q (u ∷ us) (h, k) = elim (Bool-cases (leb u.min_quantity q)) [
  | inl e ↦ rw e (ground arith, inl refl, (inr (omega arith), All-weaken q u.min_quantity us h))
  | inr e ↦ rw e (
      skip-IsLargestReached q u us (find_tier q us) (ground arith)
        (find_tier-IsLargestReached q us k))
]

Member-insert_tier :
    (t u : VolumeTier) (us : List VolumeTier) → Member t (insert_tier u us) → Member t (u ∷ us)
unfolding insert_tier
Member-insert_tier t u [] m = m
Member-insert_tier t u (v ∷ vs) m = elim (Bool-cases (leb v.min_quantity u.min_quantity)) [
  | inl e ↦ (rw e at m)
  | inr e ↦ elim (let k : Member t (v ∷ insert_tier u vs) = (rw e at m) in k) [
    | inl p ↦ inr (inl p)
    | inr k ↦ elim (Member-insert_tier t u vs k) [ inl p ↦ inl p | inr k' ↦ inr (inr k') ]
  ]
]

Member-sort_tiers : (t : VolumeTier) (ts : List VolumeTier) → Member t (sort_tiers ts) → Member t ts
unfolding sort_tiers
Member-sort_tiers t [] m = m
Member-sort_tiers t (u ∷ us) m = elim (Member-insert_tier t u (sort_tiers us) m) [
  | inl p ↦ inl p
  | inr k ↦ inr (Member-sort_tiers t us k)
]

IsLargestReached-of_sort :
    (q : ℕ) (ts : List VolumeTier) (r : Option VolumeTier)
    → IsLargestReached q (sort_tiers ts) r
    → IsLargestReached q ts r
IsLargestReached-of_sort q ts none h = All-of_sort_tiers (λ u. q < u.min_quantity) ts h
IsLargestReached-of_sort q ts (some t) (a, b, c) =
    (a, Member-sort_tiers t ts b, All-of_sort_tiers (IsAtMostIfReached q t.min_quantity) ts c)

-- Whatever the order in which a merchant lists the tiers, the one that applies to a quantity is a
-- listed tier that the quantity reaches, with the largest minimum among those it reaches; no tier
-- applies exactly when the quantity reaches none.
pub find_matching_volume_tier-IsLargestReached :
    (q : ℕ) (ts : List VolumeTier) → IsLargestReached q ts (find_matching_volume_tier q ts)
unfolding find_matching_volume_tier
find_matching_volume_tier-IsLargestReached q ts =
    IsLargestReached-of_sort q ts (find_tier q (sort_tiers ts))
      (find_tier-IsLargestReached q (sort_tiers ts) (sort_tiers-IsDescending ts))
