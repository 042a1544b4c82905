-- ===== src/Quote/Price.antt =====
-- The price of a quote in skuQuoter.ts: the catalog item, the delivery state, the discount stack, an
-- agreed price where one is lower, and the tax.
use razoragent_mesh.Prelude.{
  ℕ, ◌-◌, ◌*◌, List, [], ◌∷◌, ◌++◌, Option, none, some, leb, if◌then◌else◌, Fallible, fine, thrown,
  ◌>>=◌, take,
}
use razoragent_mesh.Prelude.Text.{Text}
use razoragent_mesh.Prelude.Dict.{lookup}
use razoragent_mesh.Protocol.{pincode_prefix_state_map, default_merchant_state}
use razoragent_mesh.Pricing.Data.{
  TaxBreakdown, AppliedDiscountItem, DiscountType, DiscountStackResult, Drift,
}
use razoragent_mesh.Pricing.Volume.{calculate_gst_breakdown}
use razoragent_mesh.Pricing.Stack.{StackInput, compute_auto_discount_stack}
use razoragent_mesh.Catalog.{CatalogSkuItem, CatalogStore, SkuNotFound, get_required_sku}
use razoragent_mesh.Negotiation.AgreedPrices.{
  AgreedPriceLookup, AgreedPrice, AgreedPriceRegistry, lookup_agreement,
}

pub record SkuQuoteRequest : Type 0 where
  pub sku_id : Text
  pub quantity : ℕ
  pub buyer_agent_id : Text
  pub delivery_pincode : Text
  pub promo_code : Option Text

pub record Clock : Type 0 where
  pub pricing : ℕ
  pub agreement : ℕ
  pub signing : ℕ

pub data QuoteError : Type 0 where
  sku_not_found : Text → QuoteError
  invalid_pincode : Text → QuoteError
  arithmetic_drift : Drift → QuoteError

pub record SkuQuotePricingResult : Type 0 where
  pub offered_unit_price_paise : ℕ
  pub applied_discounts : List AppliedDiscountItem
  pub total_savings_paise : ℕ
  pub tax : TaxBreakdown
  pub agreement : Option AgreedPrice

unfoldable pub lookup_state_from_pincode : Text → Option Text
lookup_state_from_pincode pincode = lookup (take 2 pincode) pincode_prefix_state_map

unfoldable pub known_state : Text → Option Text → Fallible QuoteError Text
known_state pincode none = thrown (invalid_pincode pincode)
known_state pincode (some state) = fine state

unfoldable pub resolve_state_from_pincode : Text → Fallible QuoteError Text
unfolding known_state
resolve_state_from_pincode pincode = known_state pincode (lookup_state_from_pincode pincode)

unfoldable pub found_sku : Fallible SkuNotFound CatalogSkuItem → Fallible QuoteError CatalogSkuItem
found_sku (fine sku) = fine sku
found_sku (thrown (SkuNotFound.sku_not_found id)) = thrown (sku_not_found id)

unfoldable pub drifted : {A : Type 0} → Fallible Drift A → Fallible QuoteError A
drifted (fine a) = fine a
drifted (thrown d) = thrown (arithmetic_drift d)

-- `_resolveCatalogItem`: the SKU first, then the state.
unfoldable pub resolve_catalog_item :
    SkuQuoteRequest → CatalogStore → Fallible QuoteError (CatalogSkuItem × Text)
resolve_catalog_item r store = do
  sku ← found_sku (get_required_sku r.sku_id store)
  buyer_state ← resolve_state_from_pincode r.delivery_pincode
  fine (sku, buyer_state)

unfoldable pub stack_input : CatalogSkuItem → SkuQuoteRequest → ℕ → StackInput
stack_input sku r now = record {
  base_unit_price_paise = sku.base_unit_price_paise;
  quantity = r.quantity;
  volume_tiers = sku.volume_tiers;
  promo_code = r.promo_code;
  merchant_offers = sku.merchant_offers;
  promotions = sku.promotions;
  now = now;
}

-- The price, the lines, the savings and the agreement that set the price, if one did.
pub record AgreedResult : Type 0 where
  pub offered_unit_price_paise : ℕ
  pub applied_discounts : List AppliedDiscountItem
  pub total_savings_paise : ℕ
  pub agreement : Option AgreedPrice

unfoldable pub ordinary : DiscountStackResult → AgreedResult
ordinary a = record {
  offered_unit_price_paise = a.offered_unit_price_paise;
  applied_discounts = a.applied_discounts;
  total_savings_paise = a.total_savings_paise;
  agreement = none;
}

unfoldable pub apply_found : ℕ → ℕ → DiscountStackResult → Option AgreedPrice → AgreedResult
unfolding ordinary
apply_found base quantity automatic none = ordinary automatic
apply_found base quantity automatic (some a) =
    if leb automatic.offered_unit_price_paise a.agreed_unit_price_paise
    then ordinary automatic
    else record {
      offered_unit_price_paise = a.agreed_unit_price_paise;
      applied_discounts =
          automatic.applied_discounts
          ++ record {
            type = DiscountType.negotiated;
            discount_bps = none;
            discount_paise = automatic.offered_unit_price_paise - a.agreed_unit_price_paise;
          }
            ∷ [];
      total_savings_paise = (base - a.agreed_unit_price_paise) * quantity;
      agreement = some a;
    }

abbrev pub quoted : CatalogSkuItem → SkuQuoteRequest → AgreedPriceLookup
quoted sku r = record {
  sku_id = sku.sku_id;
  quantity = r.quantity;
  buyer_agent_id = r.buyer_agent_id;
}

-- `_applyNegotiatedAgreement`
unfoldable pub apply_negotiated_agreement :
    CatalogSkuItem → SkuQuoteRequest → DiscountStackResult → AgreedPriceRegistry → ℕ → AgreedResult
unfolding apply_found
apply_negotiated_agreement sku r automatic reg now =
    apply_found sku.base_unit_price_paise r.quantity automatic
      (lookup_agreement (quoted sku r) now reg)

unfoldable pub priced_at :
    CatalogSkuItem → SkuQuoteRequest → Text → AgreedResult → SkuQuotePricingResult
priced_at sku r buyer_state priced = record {
  offered_unit_price_paise = priced.offered_unit_price_paise;
  applied_discounts = priced.applied_discounts;
  total_savings_paise = priced.total_savings_paise;
  tax =
      calculate_gst_breakdown (priced.offered_unit_price_paise * r.quantity) sku.gst_rate_percent
        default_merchant_state buyer_state;
  agreement = priced.agreement;
}

-- `_computeQuoteWithDiscounts`
unfoldable pub compute_quote_with_discounts :
    CatalogSkuItem
    → SkuQuoteRequest
    → Text
    → AgreedPriceRegistry
    → Clock
    → Fallible QuoteError SkuQuotePricingResult
compute_quote_with_discounts sku r buyer_state reg clock = do
  automatic ← drifted (compute_auto_discount_stack (stack_input sku r clock.pricing))
  fine
      (priced_at sku r buyer_state (apply_negotiated_agreement sku r automatic reg clock.agreement))
