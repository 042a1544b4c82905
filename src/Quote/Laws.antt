-- ===== src/Quote/Laws.antt =====
-- What a successful quote says: its price against the automatic one, its lines, its expiry, and
-- that the mesh will recognise it.
use razoragent_mesh.Prelude.{ℕ, ◌+◌, ◌≤◌, ◌≡◌, refl, sym, ap, ◌∙◌, List, fine}
use razoragent_mesh.Prelude.Text.{Text}
use razoragent_mesh.Pricing.Data.{UpcomingPromotion}
use razoragent_mesh.Catalog.{CatalogSkuItem, CatalogStore}
use razoragent_mesh.Inventory.IssuedQuotes.{
  IssuedQuoteRegistry, issued, verify, IssuedQuote, record_quote,
}
use razoragent_mesh.Inventory.QuoteLaws.{asking, verify-record_quote}
use razoragent_mesh.Negotiation.AgreedPrices.{AgreedPriceRegistry}
use razoragent_mesh.Crypto.{Hmac}
use razoragent_mesh.Quote.Price.{SkuQuoteRequest, Clock, SkuQuotePricingResult}
use razoragent_mesh.Quote.Package.{
  SkuQuoteResponse, issued_quote, quote_response, execute_sku_quote,
}
use razoragent_mesh.Quote.Stages.{Issued, execute_sku_quote-Issued}

-- The quote that a response shows to the buyer who asked for it.
abbrev pub shown : SkuQuoteRequest → SkuQuoteResponse → IssuedQuote
shown r resp = record {
  quote_hash = resp.quote_hash;
  sku_id = resp.sku_id;
  quantity = r.quantity;
  buyer_agent_id = r.buyer_agent_id;
  quote_expiry_timestamp = resp.quote_expiry_timestamp;
}

shown-quote_response :
    (hmac : Hmac) (secret : Text) (r : SkuQuoteRequest) (sku : CatalogSkuItem)
    (p : SkuQuotePricingResult) (now : ℕ) (up : List UpcomingPromotion)
    → shown r (quote_response hmac secret r sku p now up) ≡ issued_quote hmac secret r sku p now
unfolding quote_response issued_quote
shown-quote_response hmac secret r sku p now up = refl

-- Every quote that the mesh returns is one that it then recognises: asked for with the hash, the
-- SKU, the quantity and the buyer that it priced, against the registry that the call leaves, it is
-- issued until two seconds after the expiry that it shows.
pub execute_sku_quote-verify :
    (hmac : Hmac) (secret : Text) (r : SkuQuoteRequest) (store : CatalogStore)
    (reg : AgreedPriceRegistry) (clock : Clock) (quotes : IssuedQuoteRegistry)
    (resp : SkuQuoteResponse) (later : ℕ)
    → (execute_sku_quote hmac secret r store reg clock quotes).outcome ≡ fine resp
    → later ≤ resp.quote_expiry_timestamp + 2
    → verify
        (asking (shown r resp))
        later
        (execute_sku_quote hmac secret r store reg clock quotes).quotes
      ≡ issued (shown r resp)
execute_sku_quote-verify hmac secret r store reg clock quotes resp later e live =
    let (item, stages, out) =
      execute_sku_quote-Issued hmac secret r store reg clock quotes resp e in
    let same : shown r resp ≡ issued_quote hmac secret r item.0 item.1 clock.signing =
      ap (shown r) (Issued.packed out)
      ∙ shown-quote_response hmac secret r item.0 item.1 clock.signing (Issued.upcoming out) in
    let after : (execute_sku_quote hmac secret r store reg clock quotes).quotes
        ≡ record_quote (shown r resp) clock.signing quotes =
      Issued.kept out ∙ ap (λ q. record_quote q clock.signing quotes) (sym same) in
    rw after (verify-record_quote (shown r resp) clock.signing later quotes live)
