-- ===== src/Delegation/Cart.antt =====
-- packages/mcpServer/src/tools/cartMandateCreator.ts: a quote and a lock become a cart that the
-- merchant signs. The request has passed createCartMandateSchema.ts; the declared parcel weight, which
-- reaches nothing, is left out. A lock signature on which tweetnacl throws counts as one that does
-- not verify. Clocks read at least 62 seconds; ids and nonces are arguments.
use razoragent_mesh.Prelude.{
  ℕ, zero, suc, ◌+◌, ◌-◌, ◌*◌, ◌/◌, [], ◌∷◌, Option, none, some, Bool, false, not, ltb,
  if◌then◌else◌, Fallible, fine, thrown, throw_if, ◌>>=◌, ◌>>◌,
}
use razoragent_mesh.Prelude.Text.{Text}
use razoragent_mesh.Protocol.{
  millis_per_second, quote_validity_seconds, quote_expiry_grace_seconds, default_origin_pincode,
}
use razoragent_mesh.Pricing.Data.{TaxBreakdown}
use razoragent_mesh.Crypto.{verify_quote_hash, verify_lock_signature}
use razoragent_mesh.Quote.Price.{SkuQuoteRequest, Clock, QuoteError}
use razoragent_mesh.Quote.Package.{SkuQuoteResponse, QuoteRun, execute_sku_quote}
use razoragent_mesh.Shipping.{
  ShippingSlaResponse, standard, resolve_billable_weight_grams, verify_shipping_sla,
}
use razoragent_mesh.Sdk.Keys.{from_seed}
use razoragent_mesh.Sdk.Mandates.{
  whole, CartMandate, compute_mandate_hash, signed_cart_fields, create_signed_cart_mandate,
}
use razoragent_mesh.Delegation.{
  DelegationSession, Mesh, Environment, MeshError, unknown_delegation, delegation_already_settled,
  quote_failed, quote_mismatch, quote_expired, lock_signature_invalid, unserviceable_address,
  ToolRun, keyed, signed_by_sdk, load_delegation_session, save_delegation_session,
  cart_discount_paise, demo_merchant_gstin, demo_merchant_state_code,
}
use razoragent_mesh.Delegation.Payout.{
  mesh_merchant_did, resolve_merchant_payout_account, assert_requested_merchant_account_matches,
}

pub record CreateCartMandateRequest : Type 0 where
  pub delegation_id : Text
  pub sku_id : Text
  pub quantity : ℕ
  pub delivery_pincode : Text
  pub delivery_state_code : Text
  pub promo_code : Option Text
  pub quote_hash : Text
  pub quote_expiry_timestamp : Option ℕ
  pub lock_token : Text
  pub fencing_token : ℕ
  pub lock_expires_at_unix_ms : ℕ
  pub lock_signature : Text
  pub merchant_account : Option Text

-- The draws of the cart, and the clock in seconds at each reading.
pub record CartDraws : Type 0 where
  pub cart_id : Text
  pub nonce : Text
  pub loading : ℕ
  pub quoting : Clock
  pub reconciling : ℕ
  pub signing : ℕ

pub record CartResponse : Type 0 where
  pub cart_mandate : CartMandate
  pub cart_mandate_hash : Text
  pub total_paise : ℕ
  pub taxable_subtotal_paise : ℕ
  pub tax_breakdown : TaxBreakdown
  pub shipping_fee_paise : ℕ
  pub discount_paise : ℕ
  pub inventory_lock_expires_at : ℕ
  pub merchant_did : Text

unfoldable pub quoted : {A : Type 0} → Fallible QuoteError A → Fallible MeshError A
quoted (fine a) = fine a
quoted (thrown e) = thrown (quote_failed e)

-- The loop over expiries, the latest first: `left` of them from `expiry` down.
unfoldable pub scan_expiries : (ℕ → Bool) → ℕ → ℕ → Option ℕ
scan_expiries hash_matches_at zero expiry = none
scan_expiries hash_matches_at (suc left) expiry =
    let earlier = scan_expiries hash_matches_at left (expiry - 1) in
    if hash_matches_at expiry then some expiry else earlier

-- How far from now an expiry is looked for.
abbrev pub scan_reach : ℕ
scan_reach = quote_validity_seconds + quote_expiry_grace_seconds

-- The expiry that the quote hash was signed with.
unfoldable pub matched_expiry : (ℕ → Bool) → Option ℕ → ℕ → Option ℕ
unfolding scan_expiries
matched_expiry hash_matches_at (some expiry) now =
    if hash_matches_at expiry then some expiry else none
matched_expiry hash_matches_at none now =
    scan_expiries hash_matches_at (scan_reach + scan_reach + 1) (now + scan_reach)

-- `_rejectIfLapsed`
unfoldable pub reject_if_lapsed : ℕ → ℕ → Fallible MeshError (Unit {0})
reject_if_lapsed expiry now =
    throw_if (ltb (expiry + quote_expiry_grace_seconds) now) (quote_expired (now - expiry))

unfoldable pub live_expiry : Option ℕ → ℕ → Fallible MeshError (Unit {0})
unfolding reject_if_lapsed
live_expiry none now = thrown quote_mismatch
live_expiry (some expiry) now = reject_if_lapsed expiry now

module _ (env : Environment) (r : CreateCartMandateRequest) (draws : CartDraws) where
  unfoldable pub quote_request : Text → SkuQuoteRequest
  quote_request buyer_agent_did = record {
    sku_id = r.sku_id;
    quantity = r.quantity;
    buyer_agent_id = buyer_agent_did;
    delivery_pincode = r.delivery_pincode;
    promo_code = r.promo_code;
  }

  unfoldable pub hash_matches_at : Text → SkuQuoteResponse → ℕ → Bool
  hash_matches_at buyer_agent_did quote expiry =
      verify_quote_hash env.hmac env.hmac_secret_key
        (record {
          sku_id = quote.sku_id;
          quantity = r.quantity;
          offered_unit_price_paise = quote.offered_unit_price_paise;
          total_tax_paise = quote.tax_breakdown.total_tax_paise;
          quote_expiry_timestamp = expiry;
          buyer_agent_id = buyer_agent_did;
        })
        r.quote_hash

  -- `reconcileQuote` after the quote is made again.
  unfoldable pub reconcile_quote : Text → SkuQuoteResponse → Fallible MeshError (Unit {0})
  unfolding live_expiry matched_expiry hash_matches_at
  reconcile_quote buyer_agent_did quote =
      live_expiry
        (matched_expiry (hash_matches_at buyer_agent_did quote) r.quote_expiry_timestamp
          draws.reconciling)
        draws.reconciling

  unfoldable pub reconcile_lock : Fallible MeshError (Unit {0})
  reconcile_lock =
      throw_if
        (not (
          verify_lock_signature env.lock_signer
            (record {
              lock_token = r.lock_token;
              fencing_token = r.fencing_token;
              sku_id = r.sku_id;
              quantity_locked = r.quantity;
              expires_at_unix_ms = r.lock_expires_at_unix_ms;
            })
            r.lock_signature env.merchant_private_key_hex))
        lock_signature_invalid

  unfoldable pub reject_redirected_payout_of : Option Text → Fallible MeshError (Unit {0})
  reject_redirected_payout_of none = fine tt
  reject_redirected_payout_of (some account) = do
    own ← mesh_merchant_did env
    payout ← resolve_merchant_payout_account env own
    assert_requested_merchant_account_matches (some account) payout

  -- The parcel as the mesh weighs it; `normalizeShippingRequest` takes standard delivery by default.
  unfoldable pub sla_of : Mesh → ShippingSlaResponse
  sla_of mesh = verify_shipping_sla (record {
    origin_pincode = default_origin_pincode;
    delivery_pincode = r.delivery_pincode;
    package_weight_grams = resolve_billable_weight_grams r.sku_id r.quantity mesh.shelf.store;
    required_delivery_tier = standard;
  })

  -- The parameters of the cart; the signer sets the merchant and the signature.
  unfoldable pub cart_params : SkuQuoteResponse → ShippingSlaResponse → CartMandate
  cart_params quote sla =
      let line_total = quote.offered_unit_price_paise * r.quantity in
      record {
        cart_id = draws.cart_id;
        merchant_did = [];
        merchant_gstin = demo_merchant_gstin;
        merchant_state_code = demo_merchant_state_code;
        buyer_delivery_pincode = r.delivery_pincode;
        buyer_delivery_state_code = r.delivery_state_code;
        items =
            record {
              sku_id = quote.sku_id;
              quantity = r.quantity;
              unit_price_paise = quote.offered_unit_price_paise;
              hsn_code = quote.hsn_code;
              gst_rate_percent = whole quote.gst_rate_percent;
              line_total_paise = line_total;
              category = some quote.category;
            }
            ∷ [];
        taxable_subtotal_paise = line_total;
        tax_breakdown = quote.tax_breakdown;
        shipping_paise = sla.shipping_cost_paise;
        discount_paise = cart_discount_paise;
        total_paise = line_total + quote.tax_breakdown.total_tax_paise + sla.shipping_cost_paise;
        inventory_lock_token = r.lock_token;
        inventory_lock_expires_at = r.lock_expires_at_unix_ms / millis_per_second;
        nonce = draws.nonce;
        timestamp = draws.signing;
        merchant_signature = [];
      }

  unfoldable pub cart_session : DelegationSession → CartMandate → Text → DelegationSession
  cart_session session cart hash = record session {
    cart_mandate = some cart;
    cart_mandate_hash = some hash;
    signed_execution_mandate = none;
    settled = false;
  }

  -- What follows the new quote: the signed cart and its hash, or the refusal.
  unfoldable pub signed_cart :
      Text → Mesh → Fallible QuoteError SkuQuoteResponse → Fallible MeshError (CartMandate × Text)
  unfolding quoted reconcile_quote reconcile_lock sla_of cart_params keyed signed_by_sdk
  signed_cart buyer_agent_did mesh outcome = do
    quote ← quoted outcome
    reconcile_quote buyer_agent_did quote
    reconcile_lock
    let sla = sla_of mesh
    throw_if (not sla.serviceable) (unserviceable_address sla.unserviceable_reason)
    signer ← keyed (from_seed env.nacl env.merchant_private_key_hex)
    cart ← signed_by_sdk (create_signed_cart_mandate env.nacl (cart_params quote sla) signer)
    hash ← signed_by_sdk (compute_mandate_hash env.sha256 (signed_cart_fields cart))
    fine (cart, hash)

  unfoldable pub cart_response : CartMandate → Text → CartResponse
  cart_response cart hash = record {
    cart_mandate = cart;
    cart_mandate_hash = hash;
    total_paise = cart.total_paise;
    taxable_subtotal_paise = cart.taxable_subtotal_paise;
    tax_breakdown = cart.tax_breakdown;
    shipping_fee_paise = cart.shipping_paise;
    discount_paise = cart_discount_paise;
    inventory_lock_expires_at = cart.inventory_lock_expires_at;
    merchant_did = cart.merchant_did;
  }

  unfoldable pub store_cart :
      DelegationSession → Fallible MeshError (CartMandate × Text) → Mesh → ToolRun CartResponse
  unfolding cart_session cart_response
  store_cart session (thrown e) mesh = record { outcome = thrown e; mesh = mesh }
  store_cart session (fine (cart, hash)) mesh = record {
    outcome = fine (cart_response cart hash);
    mesh = save_delegation_session (cart_session session cart hash) mesh;
  }

  -- The quote is made again on the mesh's registries, which records it.
  unfoldable pub requote : DelegationSession → Mesh → QuoteRun
  unfolding quote_request
  requote session mesh =
      execute_sku_quote env.hmac env.hmac_secret_key (quote_request session.buyer_agent_did)
        mesh.shelf.store mesh.agreements draws.quoting mesh.quotes

  -- What follows the guards.
  unfoldable pub build_cart :
      DelegationSession → Fallible MeshError (Unit {0}) → Mesh → ToolRun CartResponse
  unfolding requote signed_cart store_cart
  build_cart session (thrown e) mesh = record { outcome = thrown e; mesh = mesh }
  build_cart session (fine u) mesh =
      let run = requote session mesh in
      store_cart session (signed_cart session.buyer_agent_did mesh run.outcome)
        (record mesh { quotes = run.quotes })

  unfoldable pub cart_guards : DelegationSession → Fallible MeshError (Unit {0})
  unfolding reject_redirected_payout_of
  cart_guards session = do
    throw_if session.settled delegation_already_settled
    reject_redirected_payout_of r.merchant_account

  unfoldable pub cart_for : Option DelegationSession → Mesh → ToolRun CartResponse
  unfolding build_cart cart_guards
  cart_for none mesh = record { outcome = thrown unknown_delegation; mesh = mesh }
  cart_for (some session) mesh = build_cart session (cart_guards session) mesh

  unfoldable pub create_cart_mandate_for_delegation : Mesh → ToolRun CartResponse
  unfolding cart_for
  create_cart_mandate_for_delegation mesh =
      let (found, after) = load_delegation_session r.delegation_id draws.loading mesh in
      cart_for found after
