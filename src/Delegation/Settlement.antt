-- ===== src/Delegation/Settlement.antt =====
-- packages/mcpServer/src/tools/settlementExecutor.ts without a Redis client: a signed bundle goes to the
-- settlement engine, and a capture is recorded. The request has passed executeSettlementSchema.ts. The
-- engine, which is code outside this package, is an argument: its answer to a posted body.
pub mod Run
pub mod Booked
pub mod Outcomes
pub mod Prepared
pub mod Ceiling
pub mod Destination
use razoragent_mesh.Prelude.{
  ℕ, ◌+◌, ◌-◌, ◌/◌, max, List, [], ◌∷◌, Option, none, some, Bool, true, false, not, leb,
  if◌then◌else◌, or_else, Fallible, fine, thrown, throw_if, ◌>>=◌, ◌>>◌,
}
use razoragent_mesh.Prelude.Text.{Text, text_eq}
use razoragent_mesh.Pricing.Data.{UpcomingPromotion, EvaluatedPromotionsResult, Drift}
use razoragent_mesh.Pricing.Promotions.{evaluate_scheduled_promotions}
use razoragent_mesh.Catalog.{CatalogSkuItem, get_sku}
use razoragent_mesh.Inventory.Locker.{Shelf, consume_reservation}
use razoragent_mesh.Session.{
  SessionRegistry, SessionSpendState, build_cart_key, find_prior_purchase, read_session_spend,
  record_session_spend, record_settled_purchase,
}
use razoragent_mesh.Sdk.Keys.{
  AgentKeyManager, from_secret_key, extract_public_key_from_did, verify_signature,
}
use razoragent_mesh.Sdk.Mandates.{
  CartItem, IntentMandate, CartMandate, UnsignedExecutionPayload, ExecutionMandate,
  execution_fields, sign_payload,
}
use razoragent_mesh.Delegation.{
  KeyCustodyMode, agent_held, mesh_demo_custodial, DelegationSession, Mesh, Environment, MeshError,
  unknown_delegation, no_execution_payload, execution_id_mismatch, signature_required,
  signature_invalid, custody_mismatch, duplicate_purchase_in_session, session_budget_exceeded,
  settlement_refused, settlement_unreadable, ToolRun, keyed, signed_by_sdk, load_delegation_session,
  discard_session_buyer_key,
}
use razoragent_mesh.Delegation.Payout.{
  MerchantPayoutAccount, resolve_merchant_payout_account, assert_requested_merchant_account_matches,
}

pub record ExecuteSettlementRequest : Type 0 where
  pub delegation_id : Text
  pub execution_id : Text
  pub agent_signature : Option Text
  pub merchant_account : Option Text
  pub allow_repeat_purchase : Bool

pub record SettlementBody : Type 0 where
  pub intent_mandate : IntentMandate
  pub cart_mandate : CartMandate
  pub execution_mandate : ExecutionMandate
  pub merchant_account : Text
  pub payment_id : Text
  pub server_time : ℕ

-- A 2xx answer with the string in its `paymentId`, where it has one; another status; and an answer
-- that does not come or is no JSON.
pub data EngineAnswer : Type 0 where
  captured : Option Text → EngineAnswer
  refused : ℕ → Text → EngineAnswer
  unreadable : EngineAnswer

abbrev pub Engine : Type 0
Engine = SettlementBody → EngineAnswer

pub record BuyerNotice : Type 0 where
  pub sale : UpcomingPromotion
  pub minutes : ℕ

pub record SettlementReceipt : Type 0 where
  pub payment_id : Option Text
  pub buyer_notice : Option BuyerNotice

-- What the session registry reads of the SDK's cart.
unfoldable pub registry_items : List CartItem → List razoragent_mesh.Session.CartItem
registry_items [] = []
registry_items (i ∷ is) =
    record { sku_id = i.sku_id; quantity = i.quantity; unit_price_paise = i.unit_price_paise }
    ∷ registry_items is

unfoldable pub cart_key : CartMandate → Text
unfolding registry_items
cart_key c = build_cart_key (record { items = registry_items c.items; total_paise = c.total_paise })

-- `options.mcpSessionId`, where it is not empty.
unfoldable pub named_session : Option Text → Option Text
named_session none = none
named_session (some []) = none
named_session (some (c ∷ id)) = some (c ∷ id)

-- `if (priorPaymentId)`: an empty id passes.
unfoldable pub reject_known : Option Text → Fallible MeshError (Unit {0})
reject_known none = fine tt
reject_known (some []) = fine tt
reject_known (some (c ∷ id)) = thrown (duplicate_purchase_in_session (c ∷ id))

unfoldable pub reject_duplicate_purchase :
    Text → Bool → Option Text → SessionRegistry → Fallible MeshError (Unit {0})
unfolding reject_known
reject_duplicate_purchase key repeat none purchases = fine tt
reject_duplicate_purchase key true (some id) purchases = fine tt
reject_duplicate_purchase key false (some id) purchases =
    reject_known (find_prior_purchase id key purchases)

unfoldable pub within_spend : ℕ → Option SessionSpendState → Fallible MeshError (Unit {0})
within_spend total none = fine tt
within_spend total (some spend) =
    throw_if (not (leb (spend.spent_paise + total) spend.ceiling_paise))
      (session_budget_exceeded spend.ceiling_paise spend.spent_paise total)

unfoldable pub reject_over_session_budget :
    ℕ → Option Text → SessionRegistry → Fallible MeshError (Unit {0})
unfolding within_spend
reject_over_session_budget total none purchases = fine tt
reject_over_session_budget total (some id) purchases =
    within_spend total (read_session_spend id purchases)

unfoldable pub remember_purchase :
    Text → Option Text → Option Text → SessionRegistry → SessionRegistry
remember_purchase key payment_id none purchases = purchases
remember_purchase key none (some id) purchases = purchases
remember_purchase key (some payment_id) (some id) purchases =
    record_settled_purchase id key payment_id purchases

unfoldable pub record_spend : Option Text → ℕ → SessionRegistry → SessionRegistry
record_spend none total purchases = purchases
record_spend (some id) total purchases = record_session_spend id total purchases

unfoldable pub first_sku : List CartItem → Text
first_sku [] = []
first_sku (i ∷ is) = i.sku_id

unfoldable pub consume_of : Text → Text → Shelf → Shelf
consume_of [] sku shelf = shelf
consume_of (c ∷ token) [] shelf = shelf
consume_of (c ∷ token) (d ∷ sku) shelf = (consume_reservation (c ∷ token) shelf).1

-- `_consumeSettledReservation`
unfoldable pub consume_settled_reservation : CartMandate → Shelf → Shelf
unfolding consume_of first_sku
consume_settled_reservation cart = consume_of cart.inventory_lock_token (first_sku cart.items)

-- `upcoming.reduce(...)`: the first of the soonest.
unfoldable pub soonest : UpcomingPromotion → List UpcomingPromotion → UpcomingPromotion
soonest a [] = a
soonest a (b ∷ bs) = soonest (if leb a.starts_at_unix b.starts_at_unix then a else b) bs

unfoldable pub notice_of : ℕ → List UpcomingPromotion → Option BuyerNotice
unfolding soonest
notice_of now [] = none
notice_of now (u ∷ us) =
    let sale = soonest u us in
    some (record { sale = sale; minutes = max 1 ((sale.starts_at_unix - now + 30) / 60) })

unfoldable pub notice_after : ℕ → Fallible Drift EvaluatedPromotionsResult → Option BuyerNotice
unfolding notice_of
notice_after now (thrown d) = none
notice_after now (fine evaluated) = notice_of now evaluated.upcoming_promotions

unfoldable pub notice_for : ℕ → Option CatalogSkuItem → Option BuyerNotice
unfolding notice_after
notice_for now none = none
notice_for now (some sku) =
    notice_after now (evaluate_scheduled_promotions sku.base_unit_price_paise sku.promotions now)

-- `_upcomingSaleNotice`; a list of no promotions has no upcoming one.
unfoldable pub upcoming_sale_notice : CartMandate → ℕ → Mesh → Option BuyerNotice
unfolding first_sku notice_for
upcoming_sale_notice cart now mesh =
    notice_for now (get_sku (first_sku cart.items) mesh.shelf.store)
