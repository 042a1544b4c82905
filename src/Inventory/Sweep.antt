-- ===== src/Inventory/Sweep.antt =====
-- Stock and reservations together: what sweeping, locking and retiring do to the units of a SKU.
use razoragent_mesh.Prelude.{
  ℕ, ◌+◌, ◌<◌, ◌≡◌, refl, [], ◌∷◌, Option, none, some, true, false, leb, if◌then◌else◌, arith,
  Bool-cases, inl, inr, All, length,
}
use razoragent_mesh.Prelude.Int.{pos}
use razoragent_mesh.Prelude.Text.{Text, text_eq, text_eq_iff}
use razoragent_mesh.Prelude.Dict.{Dict, lookup, insert, erase}
use razoragent_mesh.Prelude.Dict.Distinct.{IsDistinct, erase_of_missing}
use razoragent_mesh.Catalog.{CatalogStore, get_stock}
use razoragent_mesh.Catalog.Laws.{get_stock-update_stock, update_stock-credit}
use razoragent_mesh.Inventory.Locker.{ReservationRecord, SweepResult, credit, tally, sweep_from}

-- The units of SKU `k` that one reservation holds.
abbrev pub share : Text → ReservationRecord → ℕ
share k r = if text_eq r.sku_id k then r.quantity else 0

abbrev pub held : Text → Dict ReservationRecord → ℕ
held k [] = 0
held k ((token, r) ∷ d) = share k r + held k d

abbrev pub share_of : Text → Option ReservationRecord → ℕ
share_of k none = 0
share_of k (some r) = share k r

pub held-insert :
    (k token : Text) (r : ReservationRecord) (d : Dict ReservationRecord)
    → lookup token d ≡ none
    → held k (insert token r d) ≡ held k d + share k r
unfolding insert lookup
held-insert k token r [] h = omega arith
held-insert k token r ((t, s) ∷ d) h = ground (arith, held-insert k token r d)

pub held-erase :
    (k token : Text) (d : Dict ReservationRecord)
    → IsDistinct d
    → held k (erase token d) + share_of k (lookup token d) ≡ held k d
unfolding erase lookup
held-erase k token [] h = refl
held-erase k token ((t, s) ∷ d) h =
    ground (arith, held-erase k token d h.1, erase_of_missing token d, text_eq_iff t token)

credit-stock :
    (k : Text) (r : ReservationRecord) (store : CatalogStore)
    → get_stock k (credit true r store) ≡ get_stock k store + share k r
unfolding credit
credit-stock k r store = ground (
  arith,
  get_stock-update_stock r.sku_id k (pos r.quantity) store,
  update_stock-credit r.sku_id r.quantity store,
  text_eq_iff r.sku_id k,
)

-- A sweep only moves units from the reservations back to the stock.
pub sweep_from_conserves :
    (k : Text) (now : ℕ) (d : Dict ReservationRecord) (store : CatalogStore) (n : SweepResult)
    → get_stock k (sweep_from now d store n).1 + held k (sweep_from now d store n).0
      ≡ get_stock k store + held k d
unfolding sweep_from credit
sweep_from_conserves k now [] store n = refl
sweep_from_conserves k now ((t, r) ∷ d) store n = elim (Bool-cases (leb r.expires_at_unix_ms now)) [
  | inl e ↦ rw e (
      omega (
        arith,
        sweep_from_conserves k now d (credit true r store) (tally true r n),
        credit-stock k r store,
      ))
  | inr e ↦
      rw e
        (omega (arith, sweep_from_conserves k now d (credit false r store) (tally false r n), kept))
]
  where
    kept : get_stock k (credit false r store) ≡ get_stock k store
    kept = refl

pub sweep_from_missing :
    (now : ℕ) (token : Text) (d : Dict ReservationRecord) (store : CatalogStore) (n : SweepResult)
    → lookup token d ≡ none
    → lookup token (sweep_from now d store n).0 ≡ none
unfolding sweep_from lookup
sweep_from_missing now token [] store n h = refl
sweep_from_missing now token ((t, r) ∷ d) store n h =
    let lapsed = leb r.expires_at_unix_ms now in
    ground (arith, sweep_from_missing now token d (credit lapsed r store) (tally lapsed r n))

pub sweep_from-IsDistinct :
    (now : ℕ) (d : Dict ReservationRecord) (store : CatalogStore) (n : SweepResult)
    → IsDistinct d
    → IsDistinct (sweep_from now d store n).0
unfolding sweep_from
sweep_from-IsDistinct now [] store n h = tt
sweep_from-IsDistinct now ((t, r) ∷ d) store n (p, h) =
    elim (Bool-cases (leb r.expires_at_unix_ms now)) [
      | inl e ↦ rw e (sweep_from-IsDistinct now d _ _ h)
      | inr e ↦ rw e (sweep_from_missing now t d _ _ p, sweep_from-IsDistinct now d _ _ h)
    ]

-- What a sweep leaves expires later than the moment of the sweep.
pub sweep_from-All_live :
    (now : ℕ) (d : Dict ReservationRecord) (store : CatalogStore) (n : SweepResult)
    → All (λ e. now < e.1.expires_at_unix_ms) (sweep_from now d store n).0
unfolding sweep_from
sweep_from-All_live now [] store n = tt
sweep_from-All_live now ((t, r) ∷ d) store n = elim (Bool-cases (leb r.expires_at_unix_ms now)) [
  | inl e ↦ rw e (sweep_from-All_live now d _ _)
  | inr e ↦ rw e (ground arith, sweep_from-All_live now d _ _)
]

-- The count of released reservations is the number that are gone.
pub sweep_from-count :
    (now : ℕ) (d : Dict ReservationRecord) (store : CatalogStore) (n : SweepResult)
    → (sweep_from now d store n).2.released_lock_count + length (sweep_from now d store n).0
      ≡ n.released_lock_count + length d
unfolding sweep_from tally
sweep_from-count now [] store n = refl
sweep_from-count now ((t, r) ∷ d) store n =
    let lapsed = leb r.expires_at_unix_ms now in
    ground (arith, sweep_from-count now d (credit lapsed r store) (tally lapsed r n))
