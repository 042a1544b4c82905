-- ===== src/Inventory/Conservation.antt =====
-- Units are conserved along every sequence of calls on the in-memory locker: what is on the shelf,
-- what reservations hold, and what was sold.
use razoragent_mesh.Prelude.{
  ℕ, ◌+◌, ◌*◌, ◌≤◌, ◌≡◌, refl, List, [], ◌∷◌, none, ltb, arith, Bool-cases, inl, inr,
}
use razoragent_mesh.Prelude.Int.{neg}
use razoragent_mesh.Prelude.Text.{Text, text_eq_iff}
use razoragent_mesh.Prelude.Dict.{lookup}
use razoragent_mesh.Prelude.Dict.Distinct.{IsDistinct, insert-IsDistinct, erase-IsDistinct}
use razoragent_mesh.Catalog.{get_stock}
use razoragent_mesh.Catalog.Laws.{get_stock-update_stock, update_stock-debit}
use razoragent_mesh.Inventory.Locker.{
  sweep_expired_in_memory_locks, Shelf, LockCall, lock_swept, reclaim_expired, execute_lock,
  consume_reservation,
}
use razoragent_mesh.Inventory.Sweep.{
  held, share_of, held-insert, held-erase, sweep_from_conserves, sweep_from_missing,
  sweep_from-IsDistinct,
}

-- A call on the shelf. `sell` is the settlement's `consumeReservation`.
pub data Event : Type 0 where
  lock : LockCall → (now_sweep now_lock : ℕ) → Event
  reclaim : ℕ → Event
  sell : Text → Event

unfoldable pub step : Event → Shelf → Shelf
step (lock c now_sweep now_lock) w = (execute_lock c now_sweep now_lock w).1
step (reclaim now) w = (reclaim_expired now w).1
step (sell token) w = (consume_reservation token w).1

unfoldable pub run : List Event → Shelf → Shelf
run [] w = w
run (e ∷ es) w = run es (step e w)

-- The units of SKU `k` whose reservation an event retires for good.
unfoldable pub sold_by : Text → Event → Shelf → ℕ
sold_by k (lock c now_sweep now_lock) w = 0
sold_by k (reclaim now) w = 0
sold_by k (sell token) w = share_of k (lookup token w.locker.reservations)

unfoldable pub sold : Text → List Event → Shelf → ℕ
sold k [] w = 0
sold k (e ∷ es) w = sold_by k e w + sold k es (step e w)

-- Lock tokens are new each time they are made, as `uuidv4` promises.
abbrev pub IsFresh : Event → Shelf → Type 0
IsFresh (lock c now_sweep now_lock) w = lookup c.lock_token w.locker.reservations ≡ none
IsFresh (reclaim now) w = Unit
IsFresh (sell token) w = Unit

abbrev pub AreFresh : List Event → Shelf → Type 0
AreFresh [] w = Unit
AreFresh (e ∷ es) w = IsFresh e w × AreFresh es (step e w)

abbrev pub units : Text → Shelf → ℕ
units k w = get_stock k w.store + held k w.locker.reservations

abbrev pub HasDistinctTokens : Shelf → Type 0
HasDistinctTokens w = IsDistinct w.locker.reservations

reclaim_expired-units :
    (k : Text) (now : ℕ) (w : Shelf) → units k (reclaim_expired now w).1 ≡ units k w
unfolding reclaim_expired sweep_expired_in_memory_locks
reclaim_expired-units k now w = sweep_from_conserves k now w.locker.reservations w.store _

reclaim_expired-HasDistinctTokens :
    (now : ℕ) (w : Shelf) → HasDistinctTokens w → HasDistinctTokens (reclaim_expired now w).1
unfolding reclaim_expired sweep_expired_in_memory_locks
reclaim_expired-HasDistinctTokens now w h =
    sweep_from-IsDistinct now w.locker.reservations w.store _ h

reclaim_expired_missing :
    (now : ℕ) (token : Text) (w : Shelf)
    → lookup token w.locker.reservations ≡ none
    → lookup token (reclaim_expired now w).1.locker.reservations ≡ none
unfolding reclaim_expired sweep_expired_in_memory_locks
reclaim_expired_missing now token w h =
    sweep_from_missing now token w.locker.reservations w.store _ h

lock_swept-units :
    (k : Text) (c : LockCall) (now : ℕ) (w : Shelf)
    → lookup c.lock_token w.locker.reservations ≡ none
    → units k (lock_swept c now w).1 ≡ units k w
unfolding lock_swept
lock_swept-units k c now w fresh = elim (Bool-cases (ltb (get_stock c.sku_id w.store) c.quantity)) [
  | inl e ↦ rw e refl
  | inr e ↦ rw e (
      ground (
        arith,
        held-insert k c.lock_token
            (record {
              sku_id = c.sku_id;
              quantity = c.quantity;
              expires_at_unix_ms = now + c.lock_ttl_seconds * 1000;
            })
            w.locker.reservations,
        get_stock-update_stock c.sku_id k (neg c.quantity) w.store,
        update_stock-debit c.sku_id c.quantity w.store,
        text_eq_iff c.sku_id k,
      ))
]

lock_swept-HasDistinctTokens :
    (c : LockCall) (now : ℕ) (w : Shelf)
    → HasDistinctTokens w
    → HasDistinctTokens (lock_swept c now w).1
unfolding lock_swept
lock_swept-HasDistinctTokens c now w h =
    elim (Bool-cases (ltb (get_stock c.sku_id w.store) c.quantity)) [
      | inl e ↦ rw e h
      | inr e ↦ rw e (insert-IsDistinct c.lock_token _ w.locker.reservations h)
    ]

step-HasDistinctTokens :
    (e : Event) (w : Shelf) → HasDistinctTokens w → HasDistinctTokens (step e w)
unfolding step execute_lock consume_reservation
step-HasDistinctTokens (lock c a b) w h =
    lock_swept-HasDistinctTokens c b _ (reclaim_expired-HasDistinctTokens a w h)
step-HasDistinctTokens (reclaim now) w h = reclaim_expired-HasDistinctTokens now w h
step-HasDistinctTokens (sell token) w h = erase-IsDistinct token w.locker.reservations h

step-units :
    (k : Text) (e : Event) (w : Shelf)
    → HasDistinctTokens w
    → IsFresh e w
    → units k (step e w) + sold_by k e w ≡ units k w
unfolding step sold_by execute_lock consume_reservation
step-units k (lock c a b) w h fresh = omega (
  arith,
  lock_swept-units k c b (reclaim_expired a w).1 (reclaim_expired_missing a c.lock_token w fresh),
  reclaim_expired-units k a w,
)
step-units k (reclaim now) w h fresh = omega (arith, reclaim_expired-units k now w)
step-units k (sell token) w h fresh = omega (arith, held-erase k token w.locker.reservations h)

-- From a shelf whose reservations have distinct tokens, along every sequence of lock, reclaim
-- and sell calls with fresh lock tokens, for every SKU: the units on the shelf, the units that
-- reservations hold and the units sold add up to what the shelf and the reservations had at the
-- start, with refused locks, expiries and repeated sales among the calls.
pub run_conserves_units :
    (k : Text) (es : List Event) (w : Shelf)
    → HasDistinctTokens w
    → AreFresh es w
    → units k (run es w) + sold k es w ≡ units k w
unfolding run sold
run_conserves_units k [] w h fresh = omega arith
run_conserves_units k (e ∷ es) w h (f, fs) = omega (
  arith,
  run_conserves_units k es (step e w) (step-HasDistinctTokens e w h) fs,
  step-units k e w h f,
)

-- From a shelf without reservations, no sequence of calls with fresh lock tokens sells more
-- units of a SKU than were on the shelf.
pub sold-le-stock :
    (k : Text) (es : List Event) (w : Shelf)
    → w.locker.reservations ≡ []
    → AreFresh es w
    → sold k es w ≤ get_stock k w.store
sold-le-stock k es w none_held fresh =
    let distinct : HasDistinctTokens w = rw none_held tt in
    let nothing : held k w.locker.reservations ≡ 0 = rw none_held refl in
    omega (arith, run_conserves_units k es w distinct fresh)
