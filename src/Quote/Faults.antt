-- ===== src/Quote/Faults.antt =====
-- What a malformed promotion does to the quotes of its SKU.
use razoragent_mesh.Prelude.{
  ℕ, ◌≤◌, ◌<◌, ◌≡◌, subst, List, [], ◌∷◌, Option, none, some, fine, All, arith, >>=-eq-fine,
}
use razoragent_mesh.Prelude.Text.{Text}
use razoragent_mesh.Pricing.Data.{ScheduledPromotion, UpcomingPromotion, EvaluatedPromotionsResult}
use razoragent_mesh.Pricing.Promotions.{
  price_by_fixed, calculate_promotion_unit_price, evaluate_single_scheduled_promotion,
  evaluate_scheduled_promotions,
}
use razoragent_mesh.Pricing.Windows.{evaluate-cons}
use razoragent_mesh.Catalog.{CatalogSkuItem, CatalogStore, get_sku}
use razoragent_mesh.Inventory.IssuedQuotes.{IssuedQuoteRegistry}
use razoragent_mesh.Negotiation.AgreedPrices.{AgreedPriceRegistry}
use razoragent_mesh.Crypto.{Hmac}
use razoragent_mesh.Quote.Price.{SkuQuoteRequest, Clock, drifted}
use razoragent_mesh.Quote.Package.{SkuQuoteResponse, resolve_upcoming_promotions, execute_sku_quote}
use razoragent_mesh.Quote.Stages.{Stages, Issued, drifted-eq-fine, execute_sku_quote-Issued}
use razoragent_mesh.Quote.Charged.{get_required_sku-some}

-- A promotion that ends after it starts, and whose fixed price, where it has one, is no more than the
-- base price.
abbrev pub IsWellFormed : ℕ → ScheduledPromotion → Type 0
IsWellFormed base p =
    (p.starts_at_unix < p.ends_at_unix)
    × ((fixed : ℕ) → p.fixed_price_paise ≡ some fixed → fixed ≤ base)

price_by_fixed-some :
    (base : ℕ) (o : Option ℕ) (bps paise : Option ℕ) (fixed : ℕ)
    → o ≡ some fixed
    → price_by_fixed base o bps paise ≡ fixed
unfolding price_by_fixed
price_by_fixed-some base none bps paise fixed e = absurd (cc)
price_by_fixed-some base (some f) bps paise fixed e = cc

single-IsWellFormed :
    (base : ℕ) (p : ScheduledPromotion) (u : UpcomingPromotion)
    → evaluate_single_scheduled_promotion base p ≡ fine u
    → IsWellFormed base p
unfolding evaluate_single_scheduled_promotion calculate_promotion_unit_price
single-IsWellFormed base p u e = (
  ground arith,
  λ fixed q.
      let same =
        price_by_fixed-some base p.fixed_price_paise p.discount_bps p.discount_paise fixed q in
      let fits : price_by_fixed base p.fixed_price_paise p.discount_bps p.discount_paise ≤ base =
        ground arith in
      omega (arith, same, fits),
)

evaluate-AreWellFormed :
    (base now : ℕ) (ps : List ScheduledPromotion) (r : EvaluatedPromotionsResult)
    → evaluate_scheduled_promotions base ps now ≡ fine r
    → All (IsWellFormed base) ps
evaluate-AreWellFormed base now [] r e = tt
evaluate-AreWellFormed base now (p ∷ ps) r e =
    let (u, s, first, rest, same) = evaluate-cons base now p ps r e in
    (single-IsWellFormed base p u first, evaluate-AreWellFormed base now ps s rest)

foreseen-AreWellFormed :
    (sku : CatalogSkuItem) (now : ℕ) (upcoming : List UpcomingPromotion)
    → resolve_upcoming_promotions sku now ≡ fine upcoming
    → All (IsWellFormed sku.base_unit_price_paise) sku.promotions
unfolding resolve_upcoming_promotions
foreseen-AreWellFormed sku now upcoming e =
    let (r, er, rest) =
      >>=-eq-fine
        (drifted (evaluate_scheduled_promotions sku.base_unit_price_paise sku.promotions now)) _
        e in
    evaluate-AreWellFormed sku.base_unit_price_paise now sku.promotions r (drifted-eq-fine _ r er)

-- A SKU is quoted only while every one of its promotions, open, upcoming or over, ends after it starts
-- and has no fixed price above the base price: one that does not blocks every quote of its SKU,
-- whatever the buyer, the quantity, the promo code, the agreed prices and the clock.
pub execute_sku_quote-AreWellFormed :
    (hmac : Hmac) (secret : Text) (r : SkuQuoteRequest) (store : CatalogStore)
    (reg : AgreedPriceRegistry) (clock : Clock) (quotes : IssuedQuoteRegistry)
    (resp : SkuQuoteResponse) (sku : CatalogSkuItem)
    → (execute_sku_quote hmac secret r store reg clock quotes).outcome ≡ fine resp
    → get_sku r.sku_id store ≡ some sku
    → All (IsWellFormed sku.base_unit_price_paise) sku.promotions
execute_sku_quote-AreWellFormed hmac secret r store reg clock quotes resp sku e found =
    let (item, stages, out) =
      execute_sku_quote-Issued hmac secret r store reg clock quotes resp e in
    let known = get_required_sku-some r.sku_id store sku found in
    let read = Stages.found stages in
    let same : item.0 ≡ sku = cc in
    subst (λ (x : CatalogSkuItem). All (IsWellFormed x.base_unit_price_paise) x.promotions) same
      (foreseen-AreWellFormed item.0 clock.signing (Issued.upcoming out) (Issued.foreseen out))
