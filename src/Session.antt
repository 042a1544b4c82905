-- ===== src/Session.antt =====
-- packages/mcpServer/src/session/sessionPurchaseRegistry.ts: what one MCP session has bought, the
-- ceiling that it is held to and what it has spent. Of a cart mandate (buyer SDK) the model keeps
-- what the registry reads. Sums are below 2^53.
pub mod Spending
pub mod Memory
pub mod CartKey
use razoragent_mesh.Prelude.{
  ℕ, ◌+◌, ◌-◌, min, max, List, [], ◌∷◌, ◌++◌, Option, none, some, Bool, leb, if◌then◌else◌, or_else,
  length,
}
use razoragent_mesh.Prelude.Text.{Text}
use razoragent_mesh.Prelude.Decimal.{decimal}
use razoragent_mesh.Prelude.Dict.{Dict, lookup, insert, erase}

pub record CartItem : Type 0 where
  pub sku_id : Text
  pub quantity : ℕ
  pub unit_price_paise : ℕ

pub record CartMandate : Type 0 where
  pub items : List CartItem
  pub total_paise : ℕ

-- `[item.skuId, item.quantity, item.unitPricePaise].join(":")`
unfoldable pub cart_line : CartItem → Text
cart_line i = i.sku_id ++ (b':' ∷ (decimal i.quantity ++ (b':' ∷ decimal i.unit_price_paise)))

-- `lines.join("|")`
unfoldable pub cart_lines : List CartItem → Text
cart_lines [] = []
cart_lines (i ∷ []) = cart_line i
cart_lines (i ∷ j ∷ rest) = cart_line i ++ (b'|' ∷ cart_lines (j ∷ rest))

unfoldable pub build_cart_key : CartMandate → Text
build_cart_key c = cart_lines c.items ++ (b':' ∷ decimal c.total_paise)

abbrev pub max_remembered_purchases_per_session : ℕ
max_remembered_purchases_per_session = 64

-- The three maps of the module.
pub record SessionRegistry : Type 0 where
  pub settled_purchases_by_session : Dict (Dict Text)
  pub session_ceiling_paise : Dict ℕ
  pub session_spent_paise : Dict ℕ

unfoldable pub prior_purchase : Option (Dict Text) → Text → Option Text
prior_purchase none cart_key = none
prior_purchase (some purchases) cart_key = lookup cart_key purchases

unfoldable pub find_prior_purchase : Text → Text → SessionRegistry → Option Text
unfolding prior_purchase
find_prior_purchase session_id cart_key s =
    prior_purchase (lookup session_id s.settled_purchases_by_session) cart_key

-- `sessionPurchases.delete(sessionPurchases.keys().next().value)`
unfoldable pub drop_oldest : Dict Text → Dict Text
drop_oldest [] = []
drop_oldest ((oldest_key, payment) ∷ rest) = erase oldest_key ((oldest_key, payment) ∷ rest)

-- One session's map: a full one makes room first, also for a key that it holds.
unfoldable pub remember : Text → Text → Dict Text → Dict Text
unfolding drop_oldest
remember cart_key payment_id purchases = insert cart_key payment_id (
    if leb max_remembered_purchases_per_session (length purchases)
    then drop_oldest purchases
    else purchases)

unfoldable pub record_settled_purchase : Text → Text → Text → SessionRegistry → SessionRegistry
unfolding remember
record_settled_purchase session_id cart_key payment_id s = record s {
  settled_purchases_by_session =
      insert session_id
        (remember cart_key payment_id
          (or_else (lookup session_id s.settled_purchases_by_session) []))
        s.settled_purchases_by_session;
}

unfoldable pub lowered : Option ℕ → ℕ → ℕ
lowered none budget = budget
lowered (some existing) budget = min existing budget

unfoldable pub declare_session_ceiling : Text → ℕ → SessionRegistry → SessionRegistry
unfolding lowered
declare_session_ceiling session_id budget s = record s {
  session_ceiling_paise =
      insert session_id (lowered (lookup session_id s.session_ceiling_paise) budget)
        s.session_ceiling_paise;
}

pub record SessionSpendState : Type 0 where
  pub ceiling_paise : ℕ
  pub spent_paise : ℕ
  pub remaining_paise : ℕ

unfoldable pub spend_state : Option ℕ → ℕ → Option SessionSpendState
spend_state none spent = none
spend_state (some ceiling) spent = some (record {
  ceiling_paise = ceiling;
  spent_paise = spent;
  remaining_paise = max 0 (ceiling - spent);
})

unfoldable pub read_session_spend : Text → SessionRegistry → Option SessionSpendState
unfolding spend_state
read_session_spend session_id s =
    spend_state (lookup session_id s.session_ceiling_paise)
      (or_else (lookup session_id s.session_spent_paise) 0)

unfoldable pub record_session_spend : Text → ℕ → SessionRegistry → SessionRegistry
record_session_spend session_id paise s = record s {
  session_spent_paise =
      insert session_id (or_else (lookup session_id s.session_spent_paise) 0 + paise)
        s.session_spent_paise;
}

abbrev pub clear_session_purchases : SessionRegistry
clear_session_purchases = record {
  settled_purchases_by_session = [];
  session_ceiling_paise = [];
  session_spent_paise = [];
}
