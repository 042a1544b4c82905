-- ===== src/Quote/Reconciles.antt =====
-- The figures of a successful quote: the price, the lines that explain it, the savings and the
-- expiry.
use razoragent_mesh.Prelude.{
  ℕ, ◌+◌, ◌-◌, ◌*◌, ◌≤◌, ◌≡◌, sym, ap, subst, ◌∙◌, ◌⊎◌, inl, inr, List, [], ◌∷◌, ◌++◌, Option, none,
  some, true, false, leb, fine, arith, Bool-cases, sum_by-append,
}
use razoragent_mesh.Prelude.Text.{Text}
use razoragent_mesh.Pricing.Data.{
  AppliedDiscountItem, DiscountType, DiscountStackResult, UpcomingPromotion, AreValidTiers,
  AreValidOffers,
}
use razoragent_mesh.Pricing.Stack.{compute_auto_discount_stack}
use razoragent_mesh.Pricing.Reconciliation.{total_off, compute_auto_discount_stack_reconciles}
use razoragent_mesh.Catalog.{CatalogSkuItem, CatalogStore, get_required_sku}
use razoragent_mesh.Inventory.IssuedQuotes.{IssuedQuoteRegistry}
use razoragent_mesh.Negotiation.AgreedPrices.{AgreedPrice, AgreedPriceRegistry, lookup_agreement}
use razoragent_mesh.Crypto.{Hmac}
use razoragent_mesh.Quote.Price.{
  SkuQuoteRequest, Clock, found_sku, stack_input, ordinary, apply_found, quoted,
  apply_negotiated_agreement, priced_at,
}
use razoragent_mesh.Quote.Package.{SkuQuoteResponse, quote_response, execute_sku_quote}
use razoragent_mesh.Quote.Stages.{Stages, Issued, execute_sku_quote-Issued}

lines_off :
    (xs : List AppliedDiscountItem) (d : AppliedDiscountItem)
    → total_off (xs ++ d ∷ []) ≡ total_off xs + d.discount_paise
lines_off xs d = omega (arith, sum_by-append (λ x. x.discount_paise) xs (d ∷ []))

-- The price and its lines add up to the base price, and the savings are the lines for each unit.
abbrev pub AddsUp : ℕ → ℕ → ℕ → List AppliedDiscountItem → ℕ → Type 0
AddsUp base quantity offered lines savings =
    (offered + total_off lines ≡ base) × (savings ≡ total_off lines * quantity)

apply_found-AddsUp :
    (base quantity : ℕ) (a : DiscountStackResult) (o : Option AgreedPrice)
    → AddsUp base quantity a.offered_unit_price_paise a.applied_discounts a.total_savings_paise
    → let x = apply_found base quantity a o in
      AddsUp base quantity x.offered_unit_price_paise x.applied_discounts x.total_savings_paise
unfolding apply_found ordinary
apply_found-AddsUp base quantity a none h = h
apply_found-AddsUp base quantity a (some g) h =
    go (Bool-cases (leb a.offered_unit_price_paise g.agreed_unit_price_paise))
  where
    go :
        (leb a.offered_unit_price_paise g.agreed_unit_price_paise ≡ true)
          ⊎ (leb a.offered_unit_price_paise g.agreed_unit_price_paise ≡ false)
        → let x = apply_found base quantity a (some g) in
          AddsUp base quantity x.offered_unit_price_paise x.applied_discounts x.total_savings_paise
    go (inl e) = rw (e) h
    go (inr e) =
        let sum = lines_off a.applied_discounts (record {
          type = DiscountType.negotiated;
          discount_bps = none;
          discount_paise = a.offered_unit_price_paise - g.agreed_unit_price_paise;
        }) in
        let off : base - g.agreed_unit_price_paise ≡ total_off _ = ground (arith, sum) in
        rw (e) (ground (arith, sum), ap (λ (n : ℕ). n * quantity) off)

stack-AddsUp :
    (sku : CatalogSkuItem) (r : SkuQuoteRequest) (now : ℕ) (a : DiscountStackResult)
    → AreValidTiers sku.volume_tiers
    → AreValidOffers sku.merchant_offers
    → 1 ≤ r.quantity
    → compute_auto_discount_stack (stack_input sku r now) ≡ fine a
    → AddsUp sku.base_unit_price_paise r.quantity a.offered_unit_price_paise a.applied_discounts
        a.total_savings_paise
unfolding stack_input
stack-AddsUp sku r now a tiers offers q e =
    let (b, eb, sum, savings) =
      compute_auto_discount_stack_reconciles (stack_input sku r now) tiers offers q in
    let same : b ≡ a = cc in
    subst
      (λ x.
        AddsUp sku.base_unit_price_paise r.quantity x.offered_unit_price_paise x.applied_discounts
          x.total_savings_paise)
      same (sum, savings)

abbrev ResponseAddsUp : ℕ → SkuQuoteResponse → Type 0
ResponseAddsUp quantity resp =
    AddsUp resp.base_unit_price_paise quantity resp.offered_unit_price_paise resp.applied_discounts
      resp.total_savings_paise

abbrev priced_response :
    Hmac
    → Text
    → SkuQuoteRequest
    → AgreedPriceRegistry
    → Clock
    → CatalogSkuItem
    → Text
    → DiscountStackResult
    → List UpcomingPromotion
    → SkuQuoteResponse
priced_response hmac secret r reg clock sku state a up =
    quote_response hmac secret r sku
      (priced_at sku r state (apply_negotiated_agreement sku r a reg clock.agreement)) clock.signing
      up

quote_response-AddsUp :
    (hmac : Hmac) (secret : Text) (r : SkuQuoteRequest) (reg : AgreedPriceRegistry) (clock : Clock)
    (sku : CatalogSkuItem) (state : Text) (a : DiscountStackResult) (up : List UpcomingPromotion)
    → AddsUp sku.base_unit_price_paise r.quantity a.offered_unit_price_paise a.applied_discounts
        a.total_savings_paise
    → ResponseAddsUp r.quantity (priced_response hmac secret r reg clock sku state a up)
unfolding quote_response priced_at apply_negotiated_agreement
quote_response-AddsUp hmac secret r reg clock sku state a up h =
    apply_found-AddsUp sku.base_unit_price_paise r.quantity a
      (lookup_agreement (quoted sku r) clock.agreement reg) h

-- A returned quote, where the item that it prices has rates within the schema's bounds and the
-- quantity is at least one: the offered price and the discount lines add up to the base price
-- exactly, whichever of the automatic discounts and an agreed price set it, and the savings
-- are the lines for each unit.
pub execute_sku_quote-AddsUp :
    (hmac : Hmac) (secret : Text) (r : SkuQuoteRequest) (store : CatalogStore)
    (reg : AgreedPriceRegistry) (clock : Clock) (quotes : IssuedQuoteRegistry)
    (resp : SkuQuoteResponse) (sku : CatalogSkuItem)
    → (execute_sku_quote hmac secret r store reg clock quotes).outcome ≡ fine resp
    → found_sku (get_required_sku r.sku_id store) ≡ fine sku
    → AreValidTiers sku.volume_tiers
    → AreValidOffers sku.merchant_offers
    → 1 ≤ r.quantity
    → AddsUp resp.base_unit_price_paise r.quantity resp.offered_unit_price_paise
        resp.applied_discounts resp.total_savings_paise
execute_sku_quote-AddsUp hmac secret r store reg clock quotes resp sku e found tiers offers q =
    let (item, stages, out) =
      execute_sku_quote-Issued hmac secret r store reg clock quotes resp e in
    let same : item.0 ≡ sku = cc in
    let packed : resp
        ≡ priced_response hmac secret r reg clock item.0 (Stages.buyer_state stages)
            (Stages.automatic stages) (Issued.upcoming out) =
      Issued.packed out
      ∙ ap (λ p. quote_response hmac secret r item.0 p clock.signing (Issued.upcoming out))
          (Stages.priced stages) in
    subst (ResponseAddsUp r.quantity) (sym packed) (
      quote_response-AddsUp hmac secret r reg clock item.0 _ _ (Issued.upcoming out) (
        stack-AddsUp item.0 r clock.pricing _
          (subst (λ x. AreValidTiers x.volume_tiers) (sym same) tiers)
          (subst (λ x. AreValidOffers x.merchant_offers) (sym same) offers) q
          (Stages.stacked stages)))
