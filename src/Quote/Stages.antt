-- ===== src/Quote/Stages.antt =====
-- The steps that a successful get_live_sku_quote has gone through.
use razoragent_mesh.Prelude.{◌≡◌, refl, sym, ap, ◌∙◌, List, Fallible, fine, thrown, >>=-eq-fine}
use razoragent_mesh.Prelude.Text.{Text}
use razoragent_mesh.Pricing.Data.{DiscountStackResult, Drift, UpcomingPromotion}
use razoragent_mesh.Pricing.Stack.{compute_auto_discount_stack}
use razoragent_mesh.Catalog.{CatalogSkuItem, CatalogStore, get_required_sku}
use razoragent_mesh.Inventory.IssuedQuotes.{IssuedQuoteRegistry, record_quote}
use razoragent_mesh.Negotiation.AgreedPrices.{AgreedPriceRegistry}
use razoragent_mesh.Crypto.{Hmac}
use razoragent_mesh.Quote.Price.{
  SkuQuoteRequest, Clock, QuoteError, SkuQuotePricingResult, found_sku, drifted,
  resolve_state_from_pincode, resolve_catalog_item, stack_input, apply_negotiated_agreement,
  priced_at, compute_quote_with_discounts,
}
use razoragent_mesh.Quote.Package.{
  SkuQuoteResponse, resolve_upcoming_promotions, issued_quote, quote_response,
  sign_and_package_quote, packaged, price_item, execute_sku_quote,
}

pub drifted-eq-fine : {A : Type 0} (m : Fallible Drift A) (a : A) → drifted m ≡ fine a → m ≡ fine a
unfolding drifted
drifted-eq-fine (fine b) a e = cc
drifted-eq-fine (thrown d) a e = cc

-- The stages of a successful pricing.
pub record Stages (r : SkuQuoteRequest) (store : CatalogStore) (reg : AgreedPriceRegistry)
    (clock : Clock) (sku : CatalogSkuItem) (p : SkuQuotePricingResult) : Type 0 where
  pub buyer_state : Text
  pub automatic : DiscountStackResult
  pub found : found_sku (get_required_sku r.sku_id store) ≡ fine sku
  pub located : resolve_state_from_pincode r.delivery_pincode ≡ fine buyer_state
  pub stacked : compute_auto_discount_stack (stack_input sku r clock.pricing) ≡ fine automatic
  pub priced :
      p
      ≡ priced_at sku r buyer_state (apply_negotiated_agreement sku r automatic reg clock.agreement)

resolve_catalog_item-eq-fine :
    (r : SkuQuoteRequest) (store : CatalogStore) (item : CatalogSkuItem × Text)
    → resolve_catalog_item r store ≡ fine item
    → (found_sku (get_required_sku r.sku_id store) ≡ fine item.0)
      × (resolve_state_from_pincode r.delivery_pincode ≡ fine item.1)
unfolding resolve_catalog_item
resolve_catalog_item-eq-fine r store item e =
    let (s, es, k) = >>=-eq-fine (found_sku (get_required_sku r.sku_id store)) _ e in
    let (t, et, k') = >>=-eq-fine (resolve_state_from_pincode r.delivery_pincode) _ k in (cc, cc)

compute_quote_with_discounts-eq-fine :
    (sku : CatalogSkuItem) (r : SkuQuoteRequest) (state : Text) (reg : AgreedPriceRegistry)
    (clock : Clock) (p : SkuQuotePricingResult)
    → compute_quote_with_discounts sku r state reg clock ≡ fine p
    → (a : DiscountStackResult) × (compute_auto_discount_stack (stack_input sku r clock.pricing)
        ≡ fine a)
      × (p ≡ priced_at sku r state (apply_negotiated_agreement sku r a reg clock.agreement))
unfolding compute_quote_with_discounts
compute_quote_with_discounts-eq-fine sku r state reg clock p e =
    let (a, ea, k) =
      >>=-eq-fine (drifted (compute_auto_discount_stack (stack_input sku r clock.pricing))) _ e in
    (a, drifted-eq-fine _ a ea, cc)

price_item-parts :
    (r : SkuQuoteRequest) (store : CatalogStore) (reg : AgreedPriceRegistry) (clock : Clock)
    (sku : CatalogSkuItem) (p : SkuQuotePricingResult)
    → price_item r store reg clock ≡ fine (sku, p)
    → (state : Text) × (resolve_catalog_item r store ≡ fine (sku, state))
      × (compute_quote_with_discounts sku r state reg clock ≡ fine p)
unfolding price_item
price_item-parts r store reg clock sku p e =
    let (item, ei, k) = >>=-eq-fine (resolve_catalog_item r store) _ e in
    let (q, eq, k') = >>=-eq-fine (compute_quote_with_discounts item.0 r item.1 reg clock) _ k in
    let same : item.0 ≡ sku = cc in
    let same' : q ≡ p = cc in
    (
      item.1,
      ei ∙ ap (λ i. fine (i, item.1)) same,
      ap (λ i. compute_quote_with_discounts i r item.1 reg clock) (sym same) ∙ eq ∙ ap fine same',
    )

pub price_item-Stages :
    (r : SkuQuoteRequest) (store : CatalogStore) (reg : AgreedPriceRegistry) (clock : Clock)
    (sku : CatalogSkuItem) (p : SkuQuotePricingResult)
    → price_item r store reg clock ≡ fine (sku, p)
    → Stages r store reg clock sku p
price_item-Stages r store reg clock sku p e =
    let (state, ei, eq) = price_item-parts r store reg clock sku p e in
    let (found, located) = resolve_catalog_item-eq-fine r store (sku, state) ei in
    let (a, ea, same) = compute_quote_with_discounts-eq-fine sku r state reg clock p eq in
    record {
      buyer_state = state;
      automatic = a;
      found = found;
      located = located;
      stacked = ea;
      priced = same;
    }

-- What a successful call has returned and left in the registry.
pub record Issued (hmac : Hmac) (secret : Text) (r : SkuQuoteRequest) (clock : Clock)
    (quotes : IssuedQuoteRegistry) (resp : SkuQuoteResponse) (after : IssuedQuoteRegistry)
    (sku : CatalogSkuItem) (p : SkuQuotePricingResult) : Type 0 where
  pub upcoming : List UpcomingPromotion
  pub foreseen : resolve_upcoming_promotions sku clock.signing ≡ fine upcoming
  pub packed : resp ≡ quote_response hmac secret r sku p clock.signing upcoming
  pub kept :
      after ≡ record_quote (issued_quote hmac secret r sku p clock.signing) clock.signing quotes

packaged-Issued :
    (hmac : Hmac) (secret : Text) (r : SkuQuoteRequest) (clock : Clock)
    (quotes : IssuedQuoteRegistry) (resp : SkuQuoteResponse)
    (m : Fallible QuoteError (CatalogSkuItem × SkuQuotePricingResult))
    → (packaged hmac secret r clock.signing quotes m).outcome ≡ fine resp
    → (item : CatalogSkuItem × SkuQuotePricingResult) × (m ≡ fine item)
      × Issued hmac secret r clock quotes resp
          (packaged hmac secret r clock.signing quotes m).quotes
          item.0
          item.1
unfolding packaged sign_and_package_quote
packaged-Issued hmac secret r clock quotes resp (thrown d) e = cc
packaged-Issued hmac secret r clock quotes resp (fine (sku, p)) e =
    let (up, eu, k) = >>=-eq-fine (resolve_upcoming_promotions sku clock.signing) _ e in
    ((sku, p), refl, record { upcoming = up; foreseen = eu; packed = cc; kept = refl })

pub execute_sku_quote-Issued :
    (hmac : Hmac) (secret : Text) (r : SkuQuoteRequest) (store : CatalogStore)
    (reg : AgreedPriceRegistry) (clock : Clock) (quotes : IssuedQuoteRegistry)
    (resp : SkuQuoteResponse)
    → (execute_sku_quote hmac secret r store reg clock quotes).outcome ≡ fine resp
    → (item : CatalogSkuItem × SkuQuotePricingResult) × Stages r store reg clock item.0 item.1
      × Issued hmac secret r clock quotes resp
          (execute_sku_quote hmac secret r store reg clock quotes).quotes
          item.0
          item.1
unfolding execute_sku_quote
execute_sku_quote-Issued hmac secret r store reg clock quotes resp e =
    let (item, ei, out) = packaged-Issued hmac secret r clock quotes resp _ e in
    (item, price_item-Stages r store reg clock item.0 item.1 ei, out)
