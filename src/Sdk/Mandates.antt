-- ===== src/Sdk/Mandates.antt =====
-- packages/buyerSdkTs/src/agentMandateBuilder.ts with the mandates of types.ts: what is signed, the
-- hash of a mandate, and the check of a chain. An id, a nonce or a timestamp that the code draws
-- when it is not given is an argument. SHA-256 is an argument.
pub mod Chain
pub mod Linked
pub mod Hash
use razoragent_mesh.Prelude.{
  ℕ, List, [], ◌∷◌, Option, none, some, Bool, true, false, ◌||◌, leb, ◌==◌, ltb, not, if◌then◌else◌,
  or_else, Fallible, fine, thrown, throw_if, ◌>>=◌, ◌>>◌,
}
use razoragent_mesh.Prelude.Int.{ℤ, pos}
use razoragent_mesh.Prelude.Text.{Text, codes, text_eq}
use razoragent_mesh.Pricing.Data.{TaxBreakdown}
use razoragent_mesh.Sdk.Json.{
  Json, integer, fraction, string, array, object, Items, no_items, item, Fields, no_fields, field,
  JsonDrift, canonicalize_json_string,
}
use razoragent_mesh.Sdk.Keys.{Nacl, AgentKeyManager, sign_canonical_bytes}

abbrev pub default_currency : Text
default_currency = codes "INR"

abbrev pub uncategorized_cart_item_category : Text
uncategorized_cart_item_category = codes "uncategorized"

-- A percentage, of which the schemas admit fractions: a whole one, or one with a fraction as it is
-- shown. Amounts and quantities are whole.
pub data Rate : Type 0 where
  whole : ℕ → Rate
  fractional : (shown : Text) → Rate

pub record CartItem : Type 0 where
  pub sku_id : Text
  pub quantity : ℕ
  pub unit_price_paise : ℕ
  pub hsn_code : Text
  pub gst_rate_percent : Rate
  pub line_total_paise : ℕ
  pub category : Option Text

pub record IntentMandate : Type 0 where
  pub mandate_id : Text
  pub user_did : Text
  pub delegated_agent_did : Text
  pub max_budget_paise : ℕ
  pub authorized_categories : List Text
  pub valid_until_timestamp : ℕ
  pub upi_circle_delegation_token : Text
  pub single_transaction_limit_paise : ℕ
  pub nonce : Text
  pub timestamp : ℕ
  pub user_signature : Text

pub record CartMandate : Type 0 where
  pub cart_id : Text
  pub merchant_did : Text
  pub merchant_gstin : Text
  pub merchant_state_code : Text
  pub buyer_delivery_pincode : Text
  pub buyer_delivery_state_code : Text
  pub items : List CartItem
  pub taxable_subtotal_paise : ℕ
  pub tax_breakdown : TaxBreakdown
  pub shipping_paise : ℕ
  pub discount_paise : ℕ
  pub total_paise : ℕ
  pub inventory_lock_token : Text
  pub inventory_lock_expires_at : ℕ
  pub nonce : Text
  pub timestamp : ℕ
  pub merchant_signature : Text

pub record UnsignedExecutionPayload : Type 0 where
  pub execution_id : Text
  pub buyer_agent_did : Text
  pub intent_mandate_hash : Text
  pub cart_mandate_hash : Text
  pub settlement_amount_paise : ℕ
  pub upi_circle_token : Text
  pub nonce : Text
  pub timestamp : ℕ

pub record ExecutionMandate : Type 0 where
  pub payload : UnsignedExecutionPayload
  pub agent_signature : Text

pub data SdkError : Type 0 where
  arithmetic_drift : JsonDrift → SdkError
  nonpositive_limit : SdkError
  empty_cart : SdkError

abbrev number : ℕ → Json
number n = integer (pos n)

unfoldable pub texts : List Text → Items
texts [] = no_items
texts (t ∷ ts) = item (string t) (texts ts)

-- The payload that a user signs.
unfoldable pub intent_fields : IntentMandate → Fields
unfolding texts
intent_fields m = field (codes "authorizedCategories") (array (texts m.authorized_categories)) (
    field (codes "currency") (string default_currency) (
      field (codes "delegatedAgentDid") (string m.delegated_agent_did) (
        field (codes "mandateId") (string m.mandate_id) (
          field (codes "maxBudgetPaise") (number m.max_budget_paise) (
            field (codes "nonce") (string m.nonce) (
              field (codes "singleTransactionLimitPaise") (number m.single_transaction_limit_paise)
                (field (codes "timestamp") (number m.timestamp) (
                  field (codes "upiCircleDelegationToken") (string m.upi_circle_delegation_token) (
                    field (codes "userDid") (string m.user_did) (
                      field (codes "validUntilTimestamp") (number m.valid_until_timestamp)
                        no_fields))))))))))

-- `_withSignedCategory`
unfoldable pub with_signed_category : CartItem → CartItem
with_signed_category i = record i {
  category = some (or_else i.category uncategorized_cart_item_category);
}

unfoldable pub signed_items : List CartItem → List CartItem
signed_items [] = []
signed_items (i ∷ is) = with_signed_category i ∷ signed_items is

-- `JSON.stringify` drops a key whose value is `undefined`.
unfoldable pub category_fields : Option Text → Fields
category_fields none = no_fields
category_fields (some c) = field (codes "category") (string c) no_fields

unfoldable pub rate_value : Rate → Json
rate_value (whole n) = number n
rate_value (fractional shown) = fraction shown

unfoldable pub item_fields : CartItem → Fields
unfolding category_fields rate_value
item_fields i = field (codes "skuId") (string i.sku_id) (
    field (codes "quantity") (number i.quantity) (
      field (codes "unitPricePaise") (number i.unit_price_paise) (
        field (codes "hsnCode") (string i.hsn_code) (
          field (codes "gstRatePercent") (rate_value i.gst_rate_percent) (
            field (codes "lineTotalPaise") (number i.line_total_paise)
              (category_fields i.category))))))

unfoldable pub item_values : List CartItem → Items
item_values [] = no_items
item_values (i ∷ is) = item (object (item_fields i)) (item_values is)

unfoldable pub tax_fields : TaxBreakdown → Fields
tax_fields t = field (codes "cgstPaise") (number t.cgst_paise) (
    field (codes "sgstPaise") (number t.sgst_paise) (
      field (codes "igstPaise") (number t.igst_paise)
        (field (codes "totalTaxPaise") (number t.total_tax_paise) no_fields)))

-- The payload that a merchant signs.
unfoldable pub cart_fields : CartMandate → Fields
unfolding item_values
cart_fields m = field (codes "buyerDeliveryPincode") (string m.buyer_delivery_pincode) (
    field (codes "buyerDeliveryStateCode") (string m.buyer_delivery_state_code) (
      field (codes "cartId") (string m.cart_id) (
        field (codes "discountPaise") (number m.discount_paise) (
          field (codes "inventoryLockExpiresAt") (number m.inventory_lock_expires_at) (
            field (codes "inventoryLockToken") (string m.inventory_lock_token) (
              field (codes "items") (array (item_values m.items)) (
                field (codes "merchantDid") (string m.merchant_did) (
                  field (codes "merchantGstin") (string m.merchant_gstin) (
                    field (codes "merchantStateCode") (string m.merchant_state_code) (
                      field (codes "nonce") (string m.nonce) (
                        field (codes "shippingPaise") (number m.shipping_paise) (
                          field (codes "taxBreakdown") (object (tax_fields m.tax_breakdown)) (
                            field (codes "taxableSubtotalPaise") (number m.taxable_subtotal_paise) (
                              field (codes "timestamp") (number m.timestamp) (
                                field (codes "totalPaise") (number m.total_paise)
                                  no_fields)))))))))))))))

-- The payload that a buyer's agent signs.
unfoldable pub execution_fields : UnsignedExecutionPayload → Fields
execution_fields p = field (codes "buyerAgentDid") (string p.buyer_agent_did) (
    field (codes "cartMandateHash") (string p.cart_mandate_hash) (
      field (codes "currency") (string default_currency) (
        field (codes "executionId") (string p.execution_id) (
          field (codes "intentMandateHash") (string p.intent_mandate_hash) (
            field (codes "nonce") (string p.nonce) (
              field (codes "settlementAmountPaise") (number p.settlement_amount_paise) (
                field (codes "timestamp") (number p.timestamp)
                  (field (codes "upiCircleToken") (string p.upi_circle_token) no_fields))))))))

-- The mandates as objects, with their signatures.
unfoldable pub signed_intent_fields : IntentMandate → Fields
signed_intent_fields m = field (codes "userSignature") (string m.user_signature) (intent_fields m)

unfoldable pub signed_cart_fields : CartMandate → Fields
signed_cart_fields m =
    field (codes "merchantSignature") (string m.merchant_signature) (cart_fields m)

-- `signatureFieldKeys.includes(key)`
unfoldable pub is_signature_key : Text → Bool
is_signature_key k =
    text_eq k (codes "userSignature")
    || text_eq k (codes "merchantSignature")
    || text_eq k (codes "agentSignature")

unfoldable pub unsigned_fields : Fields → Fields
unfolding is_signature_key
unsigned_fields no_fields = no_fields
unsigned_fields (field k v fs) =
    let rest = unsigned_fields fs in if is_signature_key k then rest else field k v rest

unfoldable pub drifted : {A : Type 0} → Fallible JsonDrift A → Fallible SdkError A
drifted (fine a) = fine a
drifted (thrown d) = thrown (arithmetic_drift d)

unfoldable pub compute_mandate_hash : (Text → Text) → Fields → Fallible SdkError Text
unfolding drifted
compute_mandate_hash sha256 mandate = do
  canonical ← drifted (canonicalize_json_string (object (unsigned_fields mandate)))
  fine (sha256 canonical)

-- `signPayload`
unfoldable pub sign_payload : Nacl → AgentKeyManager → Fields → Fallible SdkError Text
unfolding drifted
sign_payload nacl signer payload = do
  canonical ← drifted (canonicalize_json_string (object payload))
  fine (sign_canonical_bytes nacl signer canonical)

-- The mandate of the parameters, its id, nonce and times included, but for the user and the
-- signature, which the signer sets.
unfoldable pub create_signed_intent_mandate :
    Nacl → IntentMandate → AgentKeyManager → Fallible SdkError IntentMandate
create_signed_intent_mandate nacl params signer = do
  throw_if (leb params.max_budget_paise 0 || leb params.single_transaction_limit_paise 0)
      nonpositive_limit
  let unsigned : IntentMandate = record params { user_did = signer.agent_did }
  signature ← sign_payload nacl signer (intent_fields unsigned)
  fine (record unsigned { user_signature = signature })

unfoldable pub has_no_items : List CartItem → Bool
has_no_items [] = true
has_no_items (i ∷ is) = false

unfoldable pub create_signed_cart_mandate :
    Nacl → CartMandate → AgentKeyManager → Fallible SdkError CartMandate
unfolding has_no_items
create_signed_cart_mandate nacl params signer = do
  throw_if (has_no_items params.items) empty_cart
  let unsigned : CartMandate = record params {
    items = signed_items params.items;
    merchant_did = signer.agent_did;
  }
  signature ← sign_payload nacl signer (cart_fields unsigned)
  fine (record unsigned { merchant_signature = signature })

pub record ExecutionDraws : Type 0 where
  pub execution_id : Text
  pub nonce : Text
  pub timestamp : ℕ

unfoldable pub build_unsigned_execution_payload :
    (Text → Text)
    → IntentMandate
    → CartMandate
    → ℕ
    → Text
    → ExecutionDraws
    → Text
    → Fallible SdkError UnsignedExecutionPayload
build_unsigned_execution_payload sha256 intent cart amount token draws buyer_agent_did = do
  cart_hash ← compute_mandate_hash sha256 (signed_cart_fields cart)
  intent_hash ← compute_mandate_hash sha256 (signed_intent_fields intent)
  fine (record {
    execution_id = draws.execution_id;
    buyer_agent_did = buyer_agent_did;
    intent_mandate_hash = intent_hash;
    cart_mandate_hash = cart_hash;
    settlement_amount_paise = amount;
    upi_circle_token = token;
    nonce = draws.nonce;
    timestamp = draws.timestamp;
  })
