-- ===== src/LockTool/Laws.antt =====
-- When reserve_inventory_lock takes stock, and that a refusal takes none.
use razoragent_mesh.Prelude.{
  ◌+◌, ◌*◌, ◌≡◌, refl, ◌⊎◌, inl, inr, Option, none, some, fine, thrown, arith,
}
use razoragent_mesh.Prelude.Text.{Text}
use razoragent_mesh.Catalog.{CatalogSkuItem, get_sku, get_stock}
use razoragent_mesh.Crypto.{Signer}
use razoragent_mesh.Inventory.Locker.{Shelf, execute_lock, reclaim_expired}
use razoragent_mesh.Inventory.Grants.{execute_lock_outcomes}
use razoragent_mesh.Inventory.IssuedQuotes.{
  IssuedQuote, IssuedQuoteVerdict, issued, unknown, expired, parameters_differ, IssuedQuoteRegistry,
  verify,
}
use razoragent_mesh.LockTool.{
  InventoryLockRequest, InventoryLockResponse, LockError, insufficient_stock, LockClock, LockRun,
  quote_lookup, lock_call, build_lock_response, lock_answer, execute_atomic_reservation,
  after_verdict, with_listed, reserve_inventory_lock,
}

module _ (s : Signer) (key : Text) (r : InventoryLockRequest) (token : Text)
    (clock : LockClock) where
  -- A lock that was given, for a quote that the mesh issued, out of stock that covered it.
  abbrev pub Granted : IssuedQuoteVerdict → Shelf → LockRun → Type 0
  Granted answer w run =
      let swept = (reclaim_expired clock.sweep w).1 in
      (q : IssuedQuote) × (resp : InventoryLockResponse) × (answer ≡ issued q)
      × (run.outcome ≡ fine resp)
      × (resp.quantity_locked ≡ r.quantity)
      × (resp.lock_token ≡ token)
      × (get_stock r.sku_id run.shelf.store + r.quantity ≡ get_stock r.sku_id swept.store)

  -- A refusal, which leaves the shelf as it was, or as the sweep of lapsed locks leaves it.
  abbrev pub Refused : Shelf → LockRun → Type 0
  Refused w run =
      (why : LockError) × (run.outcome ≡ thrown why)
      × ((run.shelf ≡ w) ⊎ (run.shelf ≡ (reclaim_expired clock.sweep w).1))

  execute_atomic_reservation-outcomes :
      (q : IssuedQuote) (w : Shelf)
      → Granted (issued q) w (execute_atomic_reservation s key r token clock w)
        ⊎ Refused w (execute_atomic_reservation s key r token clock w)
  unfolding execute_atomic_reservation lock_answer build_lock_response
  execute_atomic_reservation-outcomes q w =
      let result = (execute_lock (lock_call r token) clock.sweep clock.lock w).0 in
      let resp =
        build_lock_response s key r token result.fencing_token
          (clock.expiry + r.lock_ttl_seconds * 1000) in
      elim (execute_lock_outcomes (lock_call r token) clock.sweep clock.lock w) [
        | inl (enough, given, left, now) ↦
            inl (q, resp, refl, rw given refl, refl, refl, omega (arith, left, now))
        | inr (short, refused, left, none_given, kept) ↦
            inr (insufficient_stock result.remaining_stock, rw refused refl, inr kept)
      ]

  after_verdict-outcomes :
      (answer : IssuedQuoteVerdict) (w : Shelf)
      → Granted answer w (after_verdict s key r token clock answer w)
        ⊎ Refused w (after_verdict s key r token clock answer w)
  unfolding after_verdict
  after_verdict-outcomes (issued q) w = execute_atomic_reservation-outcomes q w
  after_verdict-outcomes (expired q n) w = inr (_, refl, inl refl)
  after_verdict-outcomes (parameters_differ q) w = inr (_, refl, inl refl)
  after_verdict-outcomes unknown w = inr (_, refl, inl refl)

  -- A call either gives a lock or refuses. A lock is given only for a quote that the registry
  -- verifies for this very purchase, for the quantity asked, under the new token, and takes exactly
  -- that quantity off the shelf once lapsed locks are back on it. A refusal takes nothing: the shelf
  -- is as before, or as the sweep of lapsed locks leaves it.
  pub reserve_inventory_lock-outcomes :
      (quotes : IssuedQuoteRegistry) (w : Shelf)
      → Granted
          (verify (quote_lookup r) clock.verifying quotes)
          w
          (reserve_inventory_lock s key r token clock quotes w)
        ⊎ Refused w (reserve_inventory_lock s key r token clock quotes w)
  unfolding reserve_inventory_lock with_listed
  reserve_inventory_lock-outcomes quotes w = go (get_sku r.sku_id w.store)
    where
      go :
          (o : Option CatalogSkuItem)
          → Granted
              (verify (quote_lookup r) clock.verifying quotes)
              w
              (with_listed s key r token clock o quotes w)
            ⊎ Refused w (with_listed s key r token clock o quotes w)
      go none = inr (_, refl, inl refl)
      go (some sku) = after_verdict-outcomes (verify (quote_lookup r) clock.verifying quotes) w
