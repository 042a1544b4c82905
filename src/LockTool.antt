-- ===== src/LockTool.antt =====
-- packages/mcpServer/src/tools/inventoryLocker.ts without a Redis client: reserve_inventory_lock over
-- the in-memory locker. The request has passed inventoryLockSchema.ts. The token that `uuidv4` makes,
-- the clocks and the signer are arguments; the advice on a substitute, which is text in the error for
-- insufficient stock, is left out.
pub mod Laws
use razoragent_mesh.Prelude.{ℕ, ◌+◌, ◌*◌, Option, none, some, Fallible, fine, thrown, if◌then◌else◌}
use razoragent_mesh.Prelude.Text.{Text}
use razoragent_mesh.Protocol.{millis_per_second}
use razoragent_mesh.Catalog.{CatalogSkuItem, get_sku}
use razoragent_mesh.Crypto.{Signer, sign_lock_payload}
use razoragent_mesh.Inventory.Locker.{LockCall, LockExecutionResult, Shelf, execute_lock}
use razoragent_mesh.Inventory.IssuedQuotes.{
  IssuedQuote, IssuedQuoteLookup, IssuedQuoteVerdict, issued, unknown, expired, parameters_differ,
  IssuedQuoteRegistry, verify,
}

pub record InventoryLockRequest : Type 0 where
  pub sku_id : Text
  pub quantity : ℕ
  pub buyer_agent_id : Text
  pub quote_hash : Text
  pub lock_ttl_seconds : ℕ

pub record InventoryLockResponse : Type 0 where
  pub lock_token : Text
  pub fencing_token : ℕ
  pub sku_id : Text
  pub quantity_locked : ℕ
  pub expires_at_unix_ms : ℕ
  pub signature : Text

pub data LockError : Type 0 where
  sku_not_found : Text → LockError
  quote_lapsed_before_lock : ℕ → LockError
  quote_covers_different_purchase : IssuedQuote → LockError
  quote_not_issued : LockError
  insufficient_stock : ℕ → LockError

-- The readings of the clock, in the order of the code: seconds for the quote, milliseconds for the
-- expiry in the response, the sweep and the reservation.
pub record LockClock : Type 0 where
  pub verifying : ℕ
  pub expiry : ℕ
  pub sweep : ℕ
  pub lock : ℕ

pub record LockRun : Type 0 where
  pub outcome : Fallible LockError InventoryLockResponse
  pub shelf : Shelf

abbrev pub quote_lookup : InventoryLockRequest → IssuedQuoteLookup
quote_lookup r = record {
  quote_hash = r.quote_hash;
  sku_id = r.sku_id;
  quantity = r.quantity;
  buyer_agent_id = r.buyer_agent_id;
}

abbrev pub lock_call : InventoryLockRequest → Text → LockCall
lock_call r token = record {
  sku_id = r.sku_id;
  quantity = r.quantity;
  lock_ttl_seconds = r.lock_ttl_seconds;
  lock_token = token;
}

-- `_buildLockResponse`
unfoldable pub build_lock_response :
    Signer → Text → InventoryLockRequest → Text → ℕ → ℕ → InventoryLockResponse
build_lock_response s key r token fencing_token expires = record {
  lock_token = token;
  fencing_token = fencing_token;
  sku_id = r.sku_id;
  quantity_locked = r.quantity;
  expires_at_unix_ms = expires;
  signature =
      sign_lock_payload s
        (record {
          lock_token = token;
          fencing_token = fencing_token;
          sku_id = r.sku_id;
          quantity_locked = r.quantity;
          expires_at_unix_ms = expires;
        })
        key;
}

module _ (s : Signer) (key : Text) (r : InventoryLockRequest) (token : Text)
    (clock : LockClock) where
  -- What follows the locker's answer.
  unfoldable pub lock_answer : LockExecutionResult → Fallible LockError InventoryLockResponse
  lock_answer result =
      if result.success
      then fine (
          build_lock_response s key r token result.fencing_token
            (clock.expiry + r.lock_ttl_seconds * millis_per_second))
      else thrown (insufficient_stock result.remaining_stock)

  -- `_executeAtomicReservation`, and the response to it.
  unfoldable pub execute_atomic_reservation : Shelf → LockRun
  unfolding lock_answer
  execute_atomic_reservation w =
      let (result, after) = execute_lock (lock_call r token) clock.sweep clock.lock w in
      record { outcome = lock_answer result; shelf = after }

  -- `_rejectUnissuedQuote`, and what follows when it returns.
  unfoldable pub after_verdict : IssuedQuoteVerdict → Shelf → LockRun
  after_verdict (issued q) w = execute_atomic_reservation w
  after_verdict (expired q lapsed_seconds) w = record {
    outcome = thrown (quote_lapsed_before_lock lapsed_seconds);
    shelf = w;
  }
  after_verdict (parameters_differ q) w = record {
    outcome = thrown (quote_covers_different_purchase q);
    shelf = w;
  }
  after_verdict unknown w = record { outcome = thrown quote_not_issued; shelf = w }

  -- `_validateLockRequest` looks the SKU up before the quote is verified.
  unfoldable pub with_listed : Option CatalogSkuItem → IssuedQuoteRegistry → Shelf → LockRun
  unfolding after_verdict
  with_listed none quotes w = record { outcome = thrown (sku_not_found r.sku_id); shelf = w }
  with_listed (some sku) quotes w = after_verdict (verify (quote_lookup r) clock.verifying quotes) w

  unfoldable pub reserve_inventory_lock : IssuedQuoteRegistry → Shelf → LockRun
  unfolding with_listed
  reserve_inventory_lock quotes w = with_listed (get_sku r.sku_id w.store) quotes w
