-- ===== src/Inventory/Grants.antt =====
-- Which lock calls are granted, with which fencing token, and when lapsed units return.
use razoragent_mesh.Prelude.{
  ℕ, ◌+◌, ◌≤◌, ◌<◌, ◌≡◌, refl, ◌⊎◌, List, [], ◌∷◌, true, false, leb, ltb, arith, Bool-cases, inl,
  inr, All,
}
use razoragent_mesh.Prelude.Int.{neg}
use razoragent_mesh.Prelude.Text.{Text, text_eq_iff}
use razoragent_mesh.Catalog.Laws.{update_stock-debit, get_stock-update_stock}
use razoragent_mesh.Prelude.Dict.{Dict}
use razoragent_mesh.Catalog.{CatalogStore, get_stock}
use razoragent_mesh.Inventory.Locker.{
  ReservationRecord, SweepResult, sweep_from, sweep_expired_in_memory_locks, Shelf, LockCall,
  lock_swept, reclaim_expired, execute_lock, consume_reservation, credit, tally,
}
use razoragent_mesh.Inventory.Fencing.{validate_fencing_monotonicity}
use razoragent_mesh.Inventory.Sweep.{sweep_from_conserves}
use razoragent_mesh.Inventory.Conservation.{Event, lock, reclaim, sell, step, run, units}

reclaim_expired-counter :
    (now : ℕ) (w : Shelf)
    → (reclaim_expired now w).1.locker.fencing_counter ≡ w.locker.fencing_counter
unfolding reclaim_expired
reclaim_expired-counter now w = refl

step-counter-le :
    (e : Event) (w : Shelf) → w.locker.fencing_counter ≤ (step e w).locker.fencing_counter
unfolding step execute_lock lock_swept consume_reservation reclaim_expired
step-counter-le (lock c a b) w = ground arith
step-counter-le (reclaim now) w = omega arith
step-counter-le (sell token) w = omega arith

run-counter-le :
    (es : List Event) (w : Shelf) → w.locker.fencing_counter ≤ (run es w).locker.fencing_counter
unfolding run
run-counter-le [] w = omega arith
run-counter-le (e ∷ es) w = omega (arith, step-counter-le e w, run-counter-le es (step e w))

granted-token :
    (c : LockCall) (a b : ℕ) (w : Shelf)
    → (execute_lock c a b w).0.success ≡ true
    → ((execute_lock c a b w).0.fencing_token ≡ w.locker.fencing_counter + 1)
      × ((execute_lock c a b w).1.locker.fencing_counter ≡ w.locker.fencing_counter + 1)
unfolding execute_lock lock_swept reclaim_expired
granted-token c a b w h = ground arith

-- However many calls come between two granted locks, the validator accepts the later lock's
-- fencing token as newer than the earlier one's.
pub fencing_tokens_increase :
    (c c' : LockCall) (a b a' b' : ℕ) (es : List Event) (w : Shelf)
    → (execute_lock c a b w).0.success ≡ true
    → (execute_lock c' a' b' (run es (step (lock c a b) w))).0.success ≡ true
    → validate_fencing_monotonicity
        (execute_lock c' a' b' (run es (step (lock c a b) w))).0.fencing_token
        (execute_lock c a b w).0.fencing_token
      ≡ true
unfolding validate_fencing_monotonicity step
fencing_tokens_increase c c' a b a' b' es w h h' =
    let w' = (execute_lock c a b w).1 in
    let (t, n) = granted-token c a b w h in
    let (t', _) = granted-token c' a' b' (run es w') h' in
    let mono = run-counter-le es w' in ground arith

-- A lock call first credits every lapsed reservation back. Then it is granted when the stock
-- covers the quantity, and refused when it does not; a refusal reports that stock, carries the
-- failure token 0 and takes nothing.
pub execute_lock_outcomes :
    (c : LockCall) (a b : ℕ) (w : Shelf)
    → let swept = (reclaim_expired a w).1 in
      let (r, after) = execute_lock c a b w in
      (c.quantity ≤ get_stock c.sku_id swept.store)
        × (r.success ≡ true)
        × (r.remaining_stock + c.quantity ≡ get_stock c.sku_id swept.store)
        × (get_stock c.sku_id after.store ≡ r.remaining_stock)
      ⊎ (get_stock c.sku_id swept.store < c.quantity)
        × (r.success ≡ false)
        × (r.remaining_stock ≡ get_stock c.sku_id swept.store)
        × (r.fencing_token ≡ 0)
        × (after ≡ swept)
unfolding execute_lock lock_swept
execute_lock_outcomes c a b w =
    let store = (reclaim_expired a w).1.store in
    elim (Bool-cases (ltb (get_stock c.sku_id store) c.quantity)) [
      | inl e ↦ rw e (inr (ground arith, refl, refl, refl, refl))
      | inr e ↦ rw e (
          inl (
            ground arith,
            refl,
            update_stock-debit c.sku_id c.quantity store (ground arith),
            ground (
              arith,
              get_stock-update_stock c.sku_id c.sku_id (neg c.quantity) store,
              text_eq_iff c.sku_id c.sku_id,
            ),
          ))
    ]

sweep_from-All_lapsed :
    (now : ℕ) (d : Dict ReservationRecord) (store : CatalogStore) (n : SweepResult)
    → All (λ e. e.1.expires_at_unix_ms ≤ now) d
    → (sweep_from now d store n).0 ≡ []
unfolding sweep_from
sweep_from-All_lapsed now [] store n h = refl
sweep_from-All_lapsed now ((t, r) ∷ d) store n (p, h) =
    let e : leb r.expires_at_unix_ms now ≡ true = ground arith in
    rw e (sweep_from-All_lapsed now d (credit true r store) (tally true r n) h)

-- Abandoned carts cost no stock: once every reservation has lapsed, reclaiming empties the
-- reservations and the shelf again holds all units, for every SKU.
pub reclaim_returns_lapsed :
    (k : Text) (now : ℕ) (w : Shelf)
    → All (λ e. e.1.expires_at_unix_ms ≤ now) w.locker.reservations
    → let after = (reclaim_expired now w).1 in
      (after.locker.reservations ≡ []) × (get_stock k after.store ≡ units k w)
unfolding reclaim_expired sweep_expired_in_memory_locks
reclaim_returns_lapsed k now w h =
    let n : SweepResult = record { released_lock_count = 0; restored_units = 0 } in
    let gone = sweep_from-All_lapsed now w.locker.reservations w.store n h in
    let sum = sweep_from_conserves k now w.locker.reservations w.store n in
    (gone, omega (arith, (rw gone at sum)))
