-- ===== src/Quote/Charged.antt =====
-- What negotiate_price promises and get_live_sku_quote charges: the two tools share the registry of
-- agreed prices.
use razoragent_mesh.Prelude.{
  ℕ, ◌+◌, ◌≤◌, ◌<◌, ◌≡◌, refl, sym, ap, ◌∙◌, subst, List, Option, none, some, true, fine, arith,
}
use razoragent_mesh.Prelude.Text.{Text}
use razoragent_mesh.Pricing.Data.{DiscountStackResult, UpcomingPromotion}
use razoragent_mesh.Pricing.Stack.{compute_auto_discount_stack}
use razoragent_mesh.Catalog.{CatalogSkuItem, CatalogStore, get_sku, get_required_sku}
use razoragent_mesh.Inventory.IssuedQuotes.{IssuedQuoteRegistry}
use razoragent_mesh.Negotiation.AgreedPrices.{
  AgreedPriceLookup, AgreedPrice, AgreedPriceRegistry, lookup_agreement, record_agreement,
}
use razoragent_mesh.Negotiation.PriceLaws.{lookup-record_agreement_self}
use razoragent_mesh.Negotiation.Gateway.{Gateway}
use razoragent_mesh.Negotiation.Loop.{NegotiatePriceRequest}
use razoragent_mesh.Negotiation.Response.{NegotiatePriceResponse}
use razoragent_mesh.Negotiation.Tool.{asked, automatic_input, negotiate_price}
use razoragent_mesh.Negotiation.Bindable.{Bound, negotiate_price-Bound}
use razoragent_mesh.Crypto.{Hmac}
use razoragent_mesh.Quote.Price.{
  SkuQuoteRequest, Clock, SkuQuotePricingResult, found_sku, drifted, known_state,
  lookup_state_from_pincode, resolve_state_from_pincode, resolve_catalog_item, stack_input,
  AgreedResult, apply_found, quoted, apply_negotiated_agreement, priced_at,
  compute_quote_with_discounts,
}
use razoragent_mesh.Quote.Package.{
  SkuQuoteResponse, resolve_upcoming_promotions, quote_response, sign_and_package_quote, packaged,
  price_item, execute_sku_quote,
}

-- The quote for a negotiated purchase: no promo code, any delivery address.
abbrev pub quoting : NegotiatePriceRequest → Text → SkuQuoteRequest
quoting request pincode = record {
  sku_id = request.sku_id;
  quantity = request.quantity;
  buyer_agent_id = request.buyer_agent_id;
  delivery_pincode = pincode;
  promo_code = none;
}

stack_input-automatic_input :
    (sku : CatalogSkuItem) (request : NegotiatePriceRequest) (pincode : Text) (now : ℕ)
    → stack_input sku (quoting request pincode) now ≡ automatic_input sku request.quantity now
unfolding stack_input automatic_input
stack_input-automatic_input sku request pincode now = refl

pub get_required_sku-some :
    (sku_id : Text) (store : CatalogStore) (sku : CatalogSkuItem)
    → get_sku sku_id store ≡ some sku
    → found_sku (get_required_sku sku_id store) ≡ fine sku
unfolding get_required_sku found_sku
get_required_sku-some sku_id store sku e = rw e refl

pub price_item-eq :
    (r : SkuQuoteRequest) (store : CatalogStore) (reg : AgreedPriceRegistry) (clock : Clock)
    (sku : CatalogSkuItem) (state : Text) (a : DiscountStackResult)
    → get_sku r.sku_id store ≡ some sku
    → lookup_state_from_pincode r.delivery_pincode ≡ some state
    → compute_auto_discount_stack (stack_input sku r clock.pricing) ≡ fine a
    → price_item r store reg clock
      ≡ fine (sku, priced_at sku r state (apply_negotiated_agreement sku r a reg clock.agreement))
unfolding price_item resolve_catalog_item resolve_state_from_pincode known_state
    compute_quote_with_discounts drifted
price_item-eq r store reg clock sku state a e s k =
    rw (get_required_sku-some r.sku_id store sku e, s, k) refl

apply_found-lower :
    (base quantity : ℕ) (a : DiscountStackResult) (o : Option AgreedPrice) (g : AgreedPrice)
    → o ≡ some g
    → g.agreed_unit_price_paise < a.offered_unit_price_paise
    → (apply_found base quantity a o).offered_unit_price_paise ≡ g.agreed_unit_price_paise
unfolding apply_found
apply_found-lower base quantity a o g e low = rw e (ground arith)

priced_at-offered :
    (sku : CatalogSkuItem) (r : SkuQuoteRequest) (state : Text) (x : AgreedResult)
    → (priced_at sku r state x).offered_unit_price_paise ≡ x.offered_unit_price_paise
unfolding priced_at
priced_at-offered sku r state x = refl

packaged-eq :
    (hmac : Hmac) (secret : Text) (r : SkuQuoteRequest) (now : ℕ) (quotes : IssuedQuoteRegistry)
    (sku : CatalogSkuItem) (p : SkuQuotePricingResult) (up : List UpcomingPromotion)
    → resolve_upcoming_promotions sku now ≡ fine up
    → (packaged hmac secret r now quotes (fine (sku, p))).outcome
      ≡ fine (quote_response hmac secret r sku p now up)
unfolding packaged sign_and_package_quote
packaged-eq hmac secret r now quotes sku p up e = rw e refl

-- A quote that goes through: its response, and the offered price in it.
pub execute_sku_quote-eq :
    (hmac : Hmac) (secret : Text) (r : SkuQuoteRequest) (store : CatalogStore)
    (reg : AgreedPriceRegistry) (clock : Clock) (quotes : IssuedQuoteRegistry)
    (sku : CatalogSkuItem) (state : Text) (a : DiscountStackResult) (up : List UpcomingPromotion)
    → get_sku r.sku_id store ≡ some sku
    → lookup_state_from_pincode r.delivery_pincode ≡ some state
    → compute_auto_discount_stack (stack_input sku r clock.pricing) ≡ fine a
    → resolve_upcoming_promotions sku clock.signing ≡ fine up
    → (quote : SkuQuoteResponse) × ((execute_sku_quote hmac secret r store reg clock quotes).outcome
        ≡ fine quote)
      × (quote.offered_unit_price_paise
          ≡ (apply_negotiated_agreement sku r a reg clock.agreement).offered_unit_price_paise)
unfolding execute_sku_quote quote_response
execute_sku_quote-eq hmac secret r store reg clock quotes sku state a up e s k u = (
  quote_response hmac secret r sku _ clock.signing up,
  ap (λ m. (packaged hmac secret r clock.signing quotes m).outcome)
        (price_item-eq r store reg clock sku state a e s k)
      ∙ packaged-eq hmac secret r clock.signing quotes sku _ up u,
  priced_at-offered sku r state (apply_negotiated_agreement sku r a reg clock.agreement),
)

recorded_found :
    (l : AgreedPriceLookup) (price : ℕ) (hash : Option Text) (now later : ℕ)
    (reg : AgreedPriceRegistry)
    → later ≤ now + 300
    → lookup_agreement l later (record_agreement l price hash now reg).1
      ≡ some (record_agreement l price hash now reg).0
unfolding record_agreement
recorded_found l price hash now later reg h =
    lookup-record_agreement_self l price hash now later reg ∙ ground arith

charged :
    (request : NegotiatePriceRequest) (pincode : Text) (sku : CatalogSkuItem)
    (a : DiscountStackResult) (price : ℕ) (hash : Option Text) (now later : ℕ)
    (reg : AgreedPriceRegistry)
    → sku.sku_id ≡ request.sku_id
    → later ≤ now + 300
    → price < a.offered_unit_price_paise
    → (apply_negotiated_agreement sku
        (quoting request pincode)
        a
        (record_agreement (asked request) price hash now reg).1
        later).offered_unit_price_paise
      ≡ price
unfolding apply_negotiated_agreement record_agreement
charged request pincode sku a price hash now later reg same live low =
    apply_found-lower sku.base_unit_price_paise request.quantity a
      (lookup_agreement (quoted sku (quoting request pincode)) later
        (record_agreement (asked request) price hash now reg).1)
      (record_agreement (asked request) price hash now reg).0
      (rw same (recorded_found (asked request) price hash now later reg live)) low

-- The price that negotiate_price calls bindable is the price that get_live_sku_quote then charges:
-- for the same SKU, quantity and buyer, with no promo code, within 300 seconds of the agreement,
-- priced at the clock of the comparison, the quote goes through at the agreed price. Conditions: the
-- catalog lists the item under its own id, the delivery state is known, and no promotion of the
-- item is malformed when the quote is signed.
pub negotiated_price_is_charged :
    (g : Gateway) (request : NegotiatePriceRequest) (a b : ℕ) (store : CatalogStore)
    (reg : AgreedPriceRegistry) (told : NegotiatePriceResponse) (sku : CatalogSkuItem) (hmac : Hmac)
    (secret pincode state : Text) (later signing : ℕ) (quotes : IssuedQuoteRegistry)
    (up : List UpcomingPromotion)
    → (negotiate_price g request a b store reg).outcome ≡ fine told
    → told.agreed_price_is_bindable ≡ true
    → get_sku request.sku_id store ≡ some sku
    → sku.sku_id ≡ request.sku_id
    → later ≤ a + 300
    → lookup_state_from_pincode pincode ≡ some state
    → resolve_upcoming_promotions sku signing ≡ fine up
    → (quote : SkuQuoteResponse) × ((execute_sku_quote hmac secret
          (quoting request pincode)
          store
          (negotiate_price g request a b store reg).registry
          (record { pricing = b; agreement = later; signing = signing })
          quotes).outcome
        ≡ fine quote)
      × (told.agreed_unit_price_paise ≡ some quote.offered_unit_price_paise)
negotiated_price_is_charged g request a b store reg told sku hmac secret pincode state later signing
      quotes up e bind found same live known fit =
    let (item, ei, bound) = negotiate_price-Bound g request a b store reg told e bind in
    let one : item ≡ sku = cc in
    let after = (negotiate_price g request a b store reg).registry in
    let bound' : Bound request a b sku reg told after =
      subst (λ i. Bound request a b i reg told after) one bound in
    let auto = Bound.automatic bound' in
    let (quote, returns, offered) =
      execute_sku_quote-eq hmac secret (quoting request pincode) store after
        (record { pricing = b; agreement = later; signing = signing }) quotes sku state auto up
        found known
        (ap compute_auto_discount_stack (stack_input-automatic_input sku request pincode b)
          ∙ Bound.listed bound')
        fit in
    let paid =
      ap
        (λ x.
          (apply_negotiated_agreement sku (quoting request pincode) auto x
            later).offered_unit_price_paise)
        (Bound.kept bound')
      ∙ charged request pincode sku auto (Bound.price bound') (Bound.hash bound') a later reg same
          live (Bound.lower bound') in
    (quote, returns, Bound.agreed bound' ∙ ap some (sym (offered ∙ paid)))
