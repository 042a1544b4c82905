-- ===== src/Pricing/Stack.antt =====
-- `computeAutoDiscountStack` of pricingEngine.ts, with its five steps. A step maps the unit
-- price and the discount lines so far to those after it; a line is pushed at the end.
use razoragent_mesh.Prelude.{
  ℕ, ◌-◌, ◌*◌, ◌/◌, min, max, List, [], ◌∷◌, ◌++◌, Option, none, some, ltb, leb, if◌then◌else◌,
  or_else, Fallible, fine, thrown, throw_if, ◌>>◌,
}
use razoragent_mesh.Prelude.Text.{Text, text_eq, normalise, codes}
use razoragent_mesh.Protocol.{
  bps_divisor, festive_campaign_bps, festive_campaign_cap_paise, upi_cashback_paise,
  corporate_promo_bps,
}
use razoragent_mesh.Pricing.Data.{
  VolumeTier, DiscountType, volume_tier, scheduled_promotion, campaign, payment_rail, promo_code,
  AppliedDiscountItem, DiscountStackResult, ScheduledPromotion, UpcomingPromotion,
  MerchantCampaignOffer, MerchantPromoCodeOffer, MerchantAuthoredOffers, Drift,
  invalid_base_or_quantity, EvaluatedPromotionsResult,
}
use razoragent_mesh.Pricing.Volume.{find_matching_volume_tier}
use razoragent_mesh.Pricing.Promotions.{evaluate_scheduled_promotions}

abbrev pub Priced : Type 0
Priced = ℕ × List AppliedDiscountItem

-- `if (discountPaise <= 0) return price; appliedDiscounts.push(...); return price - discountPaise;`
unfoldable pub take_off : DiscountType → Option ℕ → ℕ → Priced → Priced
take_off type bps paise (price, lines) = if leb paise 0 then (price, lines) else (
  price - paise,
  lines ++ record { type = type; discount_bps = bps; discount_paise = paise } ∷ [],
)

-- `Math.floor((price * bps) / bpsDivisor)` off, unless there is no rate.
unfoldable pub take_off_rate : DiscountType → ℕ → Priced → Priced
unfolding take_off
take_off_rate type bps (price, lines) =
    if leb bps 0
    then (price, lines)
    else take_off type (some bps) (price * bps / bps_divisor) (price, lines)

unfoldable pub tier_step : Option VolumeTier → Priced → Priced
tier_step none priced = priced
tier_step (some t) priced = take_off_rate volume_tier t.discount_bps priced

unfoldable pub apply_volume_tier_discount_step : ℕ → List VolumeTier → Priced → Priced
unfolding tier_step
apply_volume_tier_discount_step quantity tiers =
    tier_step (find_matching_volume_tier quantity tiers)

pub record ResolvedOffers : Type 0 where
  pub campaign_bps : ℕ
  pub campaign_cap_paise : Option ℕ
  pub campaign_label : Option Text
  pub cashback_paise : ℕ
  pub promo_codes : List MerchantPromoCodeOffer

campaign_bps_of : Option MerchantCampaignOffer → ℕ
campaign_bps_of none = 0
campaign_bps_of (some c) = c.discount_bps

campaign_cap_of : Option MerchantCampaignOffer → Option ℕ
campaign_cap_of none = none
campaign_cap_of (some c) = c.cap_paise

campaign_label_of : Option MerchantCampaignOffer → Option Text
campaign_label_of none = none
campaign_label_of (some c) = c.label

unfoldable pub resolve_sku_offers : Option MerchantAuthoredOffers → ResolvedOffers
unfolding campaign_bps_of campaign_cap_of campaign_label_of
resolve_sku_offers none = record {
  campaign_bps = festive_campaign_bps;
  campaign_cap_paise = some festive_campaign_cap_paise;
  campaign_label = none;
  cashback_paise = upi_cashback_paise;
  promo_codes =
      record { code = codes "CORP_5PCT"; discount_bps = corporate_promo_bps; label = none } ∷ [];
}
resolve_sku_offers (some o) = record {
  campaign_bps = campaign_bps_of o.campaign;
  campaign_cap_paise = campaign_cap_of o.campaign;
  campaign_label = campaign_label_of o.campaign;
  cashback_paise = or_else o.payment_rail_cashback_paise 0;
  promo_codes = or_else o.promo_codes [];
}

-- `active.reduce(...)`: the first of the cheapest.
unfoldable pub deepest : UpcomingPromotion → List UpcomingPromotion → UpcomingPromotion
deepest best [] = best
deepest best (p ∷ ps) =
    deepest (if ltb p.expected_unit_price_paise best.expected_unit_price_paise then p else best) ps

unfoldable pub promotion_off : ℕ → List UpcomingPromotion → List AppliedDiscountItem → Priced
promotion_off base [] lines = (base, lines)
promotion_off base (p ∷ ps) lines =
    let best = deepest p ps in
    if leb (base - best.expected_unit_price_paise) 0 then (base, lines) else (
      best.expected_unit_price_paise,
      lines
          ++ record {
            type = scheduled_promotion;
            discount_bps = none;
            discount_paise = base - best.expected_unit_price_paise;
          }
            ∷ [],
    )

-- What the `try` hands on, or the untouched price after a throw.
unfoldable pub promotion_step :
    ℕ → Fallible Drift EvaluatedPromotionsResult → List AppliedDiscountItem → Priced
promotion_step base (thrown e) lines = (base, lines)
promotion_step base (fine r) lines = promotion_off base r.active_promotions lines

unfoldable pub apply_scheduled_promotion_step :
    ℕ → List ScheduledPromotion → ℕ → List AppliedDiscountItem → Priced
unfolding promotion_step promotion_off
apply_scheduled_promotion_step base promotions now lines =
    promotion_step base (evaluate_scheduled_promotions base promotions now) lines

unfoldable pub capped : Option ℕ → ℕ → ℕ
capped none paise = paise
capped (some cap) paise = min cap paise

unfoldable pub apply_campaign_discount_step : Option MerchantAuthoredOffers → Priced → Priced
unfolding capped
apply_campaign_discount_step offers (price, lines) =
    let resolved = resolve_sku_offers offers in
    if leb resolved.campaign_bps 0
    then (price, lines)
    else take_off campaign (some resolved.campaign_bps)
        (capped resolved.campaign_cap_paise (price * resolved.campaign_bps / bps_divisor))
        (price, lines)

unfoldable pub apply_payment_rail_discount_step : Option MerchantAuthoredOffers → Priced → Priced
apply_payment_rail_discount_step offers (price, lines) =
    take_off payment_rail none (min price (resolve_sku_offers offers).cashback_paise) (price, lines)

-- `promoCodes.find(...)`
unfoldable pub find_code : Text → List MerchantPromoCodeOffer → Option MerchantPromoCodeOffer
find_code normalised [] = none
find_code normalised (o ∷ os) =
    if text_eq (normalise o.code) normalised then some o else find_code normalised os

unfoldable pub matched_step : Option MerchantPromoCodeOffer → Priced → Priced
matched_step none priced = priced
matched_step (some o) priced = take_off_rate promo_code o.discount_bps priced

-- An empty code is falsy, like a missing one.
unfoldable pub apply_promo_code_discount_step :
    Option Text → Option MerchantAuthoredOffers → Priced → Priced
unfolding find_code matched_step
apply_promo_code_discount_step none offers priced = priced
apply_promo_code_discount_step (some []) offers priced = priced
apply_promo_code_discount_step (some (c ∷ code)) offers priced =
    matched_step (find_code (normalise (c ∷ code)) (resolve_sku_offers offers).promo_codes) priced

-- The arguments of `computeAutoDiscountStack`; the clock is `now`, in seconds.
pub record StackInput : Type 0 where
  pub base_unit_price_paise : ℕ
  pub quantity : ℕ
  pub volume_tiers : List VolumeTier
  pub promo_code : Option Text
  pub merchant_offers : Option MerchantAuthoredOffers
  pub promotions : List ScheduledPromotion
  pub now : ℕ

-- The five steps, in the code's order.
unfoldable pub run_stack : StackInput → Priced
run_stack i = apply_promo_code_discount_step i.promo_code i.merchant_offers (
    apply_payment_rail_discount_step i.merchant_offers (
      apply_campaign_discount_step i.merchant_offers (
        apply_volume_tier_discount_step i.quantity i.volume_tiers
          (apply_scheduled_promotion_step i.base_unit_price_paise i.promotions i.now []))))

unfoldable pub compute_auto_discount_stack : StackInput → Fallible Drift DiscountStackResult
compute_auto_discount_stack i = do
  throw_if (ltb i.quantity 1) invalid_base_or_quantity
  let priced = run_stack i
  let offered = max 0 priced.0
  fine (record {
    offered_unit_price_paise = offered;
    applied_discounts = priced.1;
    total_savings_paise = (i.base_unit_price_paise - offered) * i.quantity;
  })
