-- ===== src/Tests/Inventory.antt =====
-- Runs of the in-memory locker and of the registry of issued quotes.
use razoragent_mesh.Prelude.{◌+◌, ◌≤◌, ◌≡◌, ◌≢◌, refl, List, [], ◌∷◌, true, arith}
use razoragent_mesh.Prelude.Text.{Text, codes, text_eq, text_eq_iff}
use razoragent_mesh.Prelude.Dict.{lookup, insert, erase}
use razoragent_mesh.Prelude.Dict.Remove.{remove_if}
use razoragent_mesh.Prelude.Int.{◌+ℤ◌}
use razoragent_mesh.Catalog.{get_stock, update_stock}
use razoragent_mesh.Inventory.Locker.{
  credit, tally, sweep_from, sweep_expired_in_memory_locks, Shelf, LockCall, lock_swept,
  reclaim_expired, execute_lock, consume_reservation, initial_locker,
}
use razoragent_mesh.Inventory.Fencing.{validate_fencing_monotonicity}
use razoragent_mesh.Inventory.Conservation.{
  Event, lock, reclaim, sell, step, run, sold, units, AreFresh, run_conserves_units, sold-le-stock,
}
use razoragent_mesh.Inventory.Grants.{fencing_tokens_increase, reclaim_returns_lapsed}
use razoragent_mesh.Inventory.IssuedQuotes.{
  IssuedQuote, issued, unknown, expired, record_quote, verify, verdict, is_lapsed, forget_lapsed,
}
use razoragent_mesh.Inventory.QuoteLaws.{
  asking, Covers, recorded, Recorded, verify_only_recorded, lapsed_quote_becomes_unknown,
}
use razoragent_mesh.Tests.Data.{tea, buyer, shop}

abbrev pub full_shelf : Shelf
full_shelf = record { store = shop; locker = initial_locker }

abbrev take_three : Text → LockCall
take_three token = record { sku_id = tea; quantity = 3; lock_ttl_seconds = 300; lock_token = token }

-- One lock is sold, another lapses.
abbrev morning : List Event
morning =
    lock (take_three (codes "a")) 0 0
    ∷ lock (take_three (codes "b")) 1 1
    ∷ sell (codes "a")
    ∷ reclaim 400000
    ∷ []

morning-AreFresh : AreFresh morning full_shelf
unfolding step execute_lock lock_swept reclaim_expired sweep_expired_in_memory_locks sweep_from
    lookup insert erase consume_reservation get_stock update_stock text_eq ◌+ℤ◌ credit tally
morning-AreFresh = (refl, (refl, (tt, (tt, tt))))

run_conserves_units_example :
    units tea (run morning full_shelf) + sold tea morning full_shelf ≡ units tea full_shelf
run_conserves_units_example = run_conserves_units tea morning full_shelf tt morning-AreFresh

sold-le-stock_example : sold tea morning full_shelf ≤ get_stock tea shop
sold-le-stock_example = sold-le-stock tea morning full_shelf refl morning-AreFresh

fencing_tokens_increase_example :
    validate_fencing_monotonicity
      (execute_lock (take_three (codes "b")) 1 1 (
        run
          (sell (codes "a") ∷ [])
          (step (lock (take_three (codes "a")) 0 0) full_shelf))).0.fencing_token
      (execute_lock (take_three (codes "a")) 0 0 full_shelf).0.fencing_token
    ≡ true
unfolding step run execute_lock lock_swept reclaim_expired sweep_expired_in_memory_locks sweep_from
    lookup insert erase consume_reservation get_stock update_stock text_eq ◌+ℤ◌ credit tally
fencing_tokens_increase_example =
    fencing_tokens_increase (take_three (codes "a")) (take_three (codes "b")) 0 0 1 1
      (sell (codes "a") ∷ []) full_shelf refl refl

-- A shelf of which three units are held.
abbrev held_shelf : Shelf
held_shelf = record {
  store = shop;
  locker = record {
    fencing_counter = 1001;
    reservations =
        (codes "a", record { sku_id = tea; quantity = 3; expires_at_unix_ms = 300000 }) ∷ [];
  };
}

reclaim_returns_lapsed_example :
    let after = (reclaim_expired 400000 held_shelf).1 in
    (after.locker.reservations ≡ []) × (get_stock tea after.store ≡ units tea held_shelf)
reclaim_returns_lapsed_example = reclaim_returns_lapsed tea 400000 held_shelf (omega arith, tt)

abbrev quote_named : Text → IssuedQuote
quote_named hash = record {
  quote_hash = hash;
  sku_id = tea;
  quantity = 3;
  buyer_agent_id = buyer;
  quote_expiry_timestamp = 1060;
}

abbrev pub first : IssuedQuote
first = quote_named (codes "h1")

abbrev second : IssuedQuote
second = quote_named (codes "h2")

first-recorded : verify (asking first) 1050 (recorded ((first, 1000) ∷ [])) ≡ issued first
unfolding verify verdict record_quote forget_lapsed remove_if is_lapsed lookup insert text_eq
first-recorded = refl

verify_only_recorded_example :
    Recorded first ((first, 1000) ∷ [])
    × (first.quote_hash ≡ first.quote_hash)
    × Covers first (asking first)
    × (1050 ≤ 1062)
verify_only_recorded_example =
    verify_only_recorded ((first, 1000) ∷ []) (asking first) 1050 first first-recorded

others : second.quote_hash ≢ first.quote_hash
unfolding text_eq
others = λ e. cc ((text_eq_iff (codes "h2") (codes "h1")).1 e)

first_lapsed : verify (asking first) 1100 (recorded ((first, 1000) ∷ [])) ≡ expired first 40
unfolding verify verdict record_quote forget_lapsed remove_if is_lapsed lookup insert text_eq
first_lapsed = refl

lapsed_quote_becomes_unknown_example :
    verify (asking first) 1101 (recorded ((second, 1100) ∷ (first, 1000) ∷ [])) ≡ unknown
lapsed_quote_becomes_unknown_example =
    lapsed_quote_becomes_unknown ((first, 1000) ∷ []) (asking first) second first 40 1100 1101
      first_lapsed others
