-- ===== src/Quote/Package.antt =====
-- Signing and packaging in skuQuoter.ts: the expiry, the hash, the registry of issued quotes and the
-- response.
use razoragent_mesh.Prelude.{ℕ, ◌+◌, min, List, Option, none, some, Fallible, fine, thrown, ◌>>=◌}
use razoragent_mesh.Prelude.Text.{Text}
use razoragent_mesh.Protocol.{quote_validity_seconds}
use razoragent_mesh.Pricing.Data.{TaxBreakdown, AppliedDiscountItem, UpcomingPromotion}
use razoragent_mesh.Pricing.Promotions.{evaluate_scheduled_promotions}
use razoragent_mesh.Catalog.{CatalogSkuItem, CatalogStore}
use razoragent_mesh.Inventory.IssuedQuotes.{IssuedQuote, IssuedQuoteRegistry, record_quote}
use razoragent_mesh.Negotiation.AgreedPrices.{AgreedPrice, AgreedPriceRegistry}
use razoragent_mesh.Crypto.{Hmac, compute_quote_hash}
use razoragent_mesh.Quote.Price.{
  SkuQuoteRequest, Clock, QuoteError, SkuQuotePricingResult, drifted, resolve_catalog_item,
  compute_quote_with_discounts,
}

pub record SkuQuoteResponse : Type 0 where
  pub sku_id : Text
  pub available_stock : ℕ
  pub base_unit_price_paise : ℕ
  pub offered_unit_price_paise : ℕ
  pub hsn_code : Text
  pub category : Text
  pub gst_rate_percent : ℕ
  pub tax_breakdown : TaxBreakdown
  pub quote_expiry_timestamp : ℕ
  pub quote_hash : Text
  pub applied_discounts : List AppliedDiscountItem
  pub total_savings_paise : ℕ
  pub upcoming_promotions : List UpcomingPromotion

-- What a call leaves behind: its result, and the registry of issued quotes.
pub record QuoteRun : Type 0 where
  pub outcome : Fallible QuoteError SkuQuoteResponse
  pub quotes : IssuedQuoteRegistry

-- `_resolveQuoteExpiry`
unfoldable pub resolve_quote_expiry : ℕ → Option AgreedPrice → ℕ
resolve_quote_expiry now none = now + quote_validity_seconds
resolve_quote_expiry now (some a) = min (now + quote_validity_seconds) a.agreement_expires_at

-- `_resolveUpcomingPromotions`; no sales and no upcoming ones both come out as an empty list, and
-- the response then has no such field.
unfoldable pub resolve_upcoming_promotions :
    CatalogSkuItem → ℕ → Fallible QuoteError (List UpcomingPromotion)
resolve_upcoming_promotions sku now =
    drifted (evaluate_scheduled_promotions sku.base_unit_price_paise sku.promotions now) >>= λ r.
    fine r.upcoming_promotions

unfoldable pub quote_hash_of :
    Hmac → Text → SkuQuoteRequest → CatalogSkuItem → SkuQuotePricingResult → ℕ → Text
quote_hash_of hmac secret r sku p now = compute_quote_hash hmac secret (record {
  sku_id = sku.sku_id;
  quantity = r.quantity;
  offered_unit_price_paise = p.offered_unit_price_paise;
  total_tax_paise = p.tax.total_tax_paise;
  quote_expiry_timestamp = resolve_quote_expiry now p.agreement;
  buyer_agent_id = r.buyer_agent_id;
})

unfoldable pub quote_response :
    Hmac
    → Text
    → SkuQuoteRequest
    → CatalogSkuItem
    → SkuQuotePricingResult
    → ℕ
    → List UpcomingPromotion
    → SkuQuoteResponse
quote_response hmac secret r sku p now upcoming = record {
  sku_id = sku.sku_id;
  available_stock = sku.available_stock;
  base_unit_price_paise = sku.base_unit_price_paise;
  offered_unit_price_paise = p.offered_unit_price_paise;
  hsn_code = sku.hsn_code;
  category = sku.category;
  gst_rate_percent = sku.gst_rate_percent;
  tax_breakdown = p.tax;
  quote_expiry_timestamp = resolve_quote_expiry now p.agreement;
  quote_hash = quote_hash_of hmac secret r sku p now;
  applied_discounts = p.applied_discounts;
  total_savings_paise = p.total_savings_paise;
  upcoming_promotions = upcoming;
}

unfoldable pub issued_quote :
    Hmac → Text → SkuQuoteRequest → CatalogSkuItem → SkuQuotePricingResult → ℕ → IssuedQuote
issued_quote hmac secret r sku p now = record {
  quote_hash = quote_hash_of hmac secret r sku p now;
  sku_id = sku.sku_id;
  quantity = r.quantity;
  buyer_agent_id = r.buyer_agent_id;
  quote_expiry_timestamp = resolve_quote_expiry now p.agreement;
}

-- `_signAndPackageQuote`: the quote is recorded before the upcoming sales are evaluated.
unfoldable pub sign_and_package_quote :
    Hmac
    → Text
    → SkuQuoteRequest
    → CatalogSkuItem
    → SkuQuotePricingResult
    → ℕ
    → IssuedQuoteRegistry
    → QuoteRun
sign_and_package_quote hmac secret r sku p now quotes = record {
  outcome = resolve_upcoming_promotions sku now >>= λ upcoming.
      fine (quote_response hmac secret r sku p now upcoming);
  quotes = record_quote (issued_quote hmac secret r sku p now) now quotes;
}

-- What follows the pricing; a throw before it leaves the registry alone.
unfoldable pub packaged :
    Hmac
    → Text
    → SkuQuoteRequest
    → ℕ
    → IssuedQuoteRegistry
    → Fallible QuoteError (CatalogSkuItem × SkuQuotePricingResult)
    → QuoteRun
packaged hmac secret r now quotes (thrown e) = record { outcome = thrown e; quotes = quotes }
packaged hmac secret r now quotes (fine (sku, p)) =
    sign_and_package_quote hmac secret r sku p now quotes

unfoldable pub price_item :
    SkuQuoteRequest
    → CatalogStore
    → AgreedPriceRegistry
    → Clock
    → Fallible QuoteError (CatalogSkuItem × SkuQuotePricingResult)
price_item r store reg clock = do
  item ← resolve_catalog_item r store
  p ← compute_quote_with_discounts item.0 r item.1 reg clock
  fine (item.0, p)

unfoldable pub execute_sku_quote :
    Hmac
    → Text
    → SkuQuoteRequest
    → CatalogStore
    → AgreedPriceRegistry
    → Clock
    → IssuedQuoteRegistry
    → QuoteRun
unfolding packaged
execute_sku_quote hmac secret r store reg clock quotes =
    packaged hmac secret r clock.signing quotes (price_item r store reg clock)
