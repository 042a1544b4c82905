-- ===== src/Tests/LockTool.antt =====
-- A lock on a quote that the mesh has issued.
use razoragent_mesh.Prelude.{◌⊎◌, [], ◌∷◌, ◌++◌, true}
use razoragent_mesh.Prelude.Text.{codes}
use razoragent_mesh.Crypto.{Signer}
use razoragent_mesh.Inventory.IssuedQuotes.{verify}
use razoragent_mesh.Inventory.QuoteLaws.{recorded}
use razoragent_mesh.LockTool.{InventoryLockRequest, LockClock, quote_lookup, reserve_inventory_lock}
use razoragent_mesh.LockTool.Laws.{Granted, Refused, reserve_inventory_lock-outcomes}
use razoragent_mesh.Tests.Data.{tea, buyer}
use razoragent_mesh.Tests.Inventory.{first, full_shelf}

-- A stand-in for Ed25519: the key before the message.
abbrev pub pen : Signer
pen = record { sign = λ key message. key ++ message; verify = λ key message signature. true }

abbrev wanted : InventoryLockRequest
wanted = record {
  sku_id = tea;
  quantity = 3;
  buyer_agent_id = buyer;
  quote_hash = codes "h1";
  lock_ttl_seconds = 60;
}

abbrev noon : LockClock
noon = record { verifying = 1050; expiry = 1050000; sweep = 1050001; lock = 1050002 }

reserve_inventory_lock-outcomes_example :
    Granted pen
      (codes "k")
      wanted
      (codes "a")
      noon
      (verify (quote_lookup wanted) 1050 (recorded ((first, 1000) ∷ [])))
      full_shelf
      (reserve_inventory_lock pen
        (codes "k")
        wanted
        (codes "a")
        noon
        (recorded ((first, 1000) ∷ []))
        full_shelf)
    ⊎ Refused pen (codes "k") wanted (codes "a") noon full_shelf (
        reserve_inventory_lock pen
          (codes "k")
          wanted
          (codes "a")
          noon
          (recorded ((first, 1000) ∷ []))
          full_shelf)
reserve_inventory_lock-outcomes_example =
    reserve_inventory_lock-outcomes pen (codes "k") wanted (codes "a") noon
      (recorded ((first, 1000) ∷ [])) full_shelf
