-- ===== src/Inventory/Locker.antt =====
-- `InMemoryAtomicLocker` of redisLockManager.ts and `sweepExpiredInMemoryLocks` of
-- lockExpirySweeper.ts. The clock is an argument, in milliseconds, once for each `Date.now()`;
-- quantities are whole and positive, as inventoryLockSchema.ts admits them.
use razoragent_mesh.Prelude.{
  ℕ, ◌+◌, ◌*◌, [], ◌∷◌, Bool, true, false, ltb, leb, if◌then◌else◌, length,
}
use razoragent_mesh.Prelude.Int.{pos, neg}
use razoragent_mesh.Prelude.Text.{Text}
use razoragent_mesh.Prelude.Dict.{Dict, lookup, insert, erase}
use razoragent_mesh.Protocol.{millis_per_second}
use razoragent_mesh.Catalog.{CatalogStore, get_stock, update_stock, is_some}

pub record ReservationRecord : Type 0 where
  pub sku_id : Text
  pub quantity : ℕ
  pub expires_at_unix_ms : ℕ

pub record SweepResult : Type 0 where
  pub released_lock_count : ℕ
  pub restored_units : ℕ

pub record LockExecutionResult : Type 0 where
  pub success : Bool
  pub remaining_stock : ℕ
  pub fencing_token : ℕ

pub record Locker : Type 0 where
  pub fencing_counter : ℕ
  pub reservations : Dict ReservationRecord

abbrev pub initial_in_memory_fencing_counter : ℕ
initial_in_memory_fencing_counter = 1000

abbrev pub failure_fencing_token : ℕ
failure_fencing_token = 0

abbrev pub initial_locker : Locker
initial_locker = record { fencing_counter = initial_in_memory_fencing_counter; reservations = [] }

-- One round of the loop: a lapsed reservation is credited back to its SKU's stock.
unfoldable pub credit : Bool → ReservationRecord → CatalogStore → CatalogStore
credit lapsed r store = if lapsed then (update_stock r.sku_id (pos r.quantity) store).1 else store

unfoldable pub tally : Bool → ReservationRecord → SweepResult → SweepResult
tally lapsed r n =
    if lapsed
    then record {
      released_lock_count = n.released_lock_count + 1;
      restored_units = n.restored_units + r.quantity;
    }
    else n

-- The loop of `sweepExpiredInMemoryLocks`: what stays, the store, and the counts.
unfoldable pub sweep_from :
    ℕ
    → Dict ReservationRecord
    → CatalogStore
    → SweepResult
    → Dict ReservationRecord × CatalogStore × SweepResult
sweep_from now [] store n = ([], store, n)
sweep_from now ((token, r) ∷ rest) store n =
    let lapsed = leb r.expires_at_unix_ms now in
    let (kept, store', n') = sweep_from now rest (credit lapsed r store) (tally lapsed r n) in
    (if lapsed then kept else (token, r) ∷ kept, store', n')

unfoldable pub sweep_expired_in_memory_locks :
    CatalogStore → Dict ReservationRecord → ℕ → Dict ReservationRecord × CatalogStore × SweepResult
sweep_expired_in_memory_locks store reservations now =
    sweep_from now reservations store (record { released_lock_count = 0; restored_units = 0 })

-- A catalog store with the locker that holds reservations against it.
pub record Shelf : Type 0 where
  pub store : CatalogStore
  pub locker : Locker

unfoldable pub reclaim_expired : ℕ → Shelf → SweepResult × Shelf
reclaim_expired now w =
    let (kept, store, n) = sweep_expired_in_memory_locks w.store w.locker.reservations now in
    (n, record { store = store; locker = record (w.locker) { reservations = kept } })

pub record LockCall : Type 0 where
  pub sku_id : Text
  pub quantity : ℕ
  pub lock_ttl_seconds : ℕ
  pub lock_token : Text

-- `executeLock` after its sweep.
unfoldable pub lock_swept : LockCall → ℕ → Shelf → LockExecutionResult × Shelf
lock_swept c now w =
    let current = get_stock c.sku_id w.store in
    if ltb current c.quantity
    then (
      record { success = false; remaining_stock = current; fencing_token = failure_fencing_token },
      w,
    )
    else (
      record {
        success = true;
        remaining_stock = (update_stock c.sku_id (neg c.quantity) w.store).0;
        fencing_token = w.locker.fencing_counter + 1;
      },
      record {
        store = (update_stock c.sku_id (neg c.quantity) w.store).1;
        locker = record {
          fencing_counter = w.locker.fencing_counter + 1;
          reservations =
              insert c.lock_token
                (record {
                  sku_id = c.sku_id;
                  quantity = c.quantity;
                  expires_at_unix_ms = now + c.lock_ttl_seconds * millis_per_second;
                })
                w.locker.reservations;
        };
      },
    )

-- The clock is read once for the sweep and once for the expiry.
unfoldable pub execute_lock : LockCall → ℕ → ℕ → Shelf → LockExecutionResult × Shelf
execute_lock c now_sweep now_lock w = lock_swept c now_lock (reclaim_expired now_sweep w).1

-- `Map.delete` says whether the token was known.
unfoldable pub consume_reservation : Text → Shelf → Bool × Shelf
consume_reservation token w = (
  is_some (lookup token w.locker.reservations),
  record w { locker = record (w.locker) { reservations = erase token w.locker.reservations } },
)

unfoldable pub get_active_reservation_count : Shelf → ℕ
get_active_reservation_count w = length w.locker.reservations
