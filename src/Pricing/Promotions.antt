-- ===== src/Pricing/Promotions.antt =====
-- The scheduled sales of pricingEngine.ts (`evaluateSingleScheduledPromotion`,
-- `evaluateScheduledPromotions`).
use razoragent_mesh.Prelude.{
  ℕ, ◌-◌, ◌*◌, ◌/◌, List, [], ◌∷◌, Option, none, some, ◌&&◌, ltb, leb, if◌then◌else◌, Fallible,
  fine, throw_if, ◌>>=◌, ◌>>◌,
}
use razoragent_mesh.Protocol.{bps_divisor}
use razoragent_mesh.Pricing.Data.{
  ScheduledPromotion, UpcomingPromotion, EvaluatedPromotionsResult, Drift, inverted_window,
  negative_savings,
}

unfoldable pub price_by_paise : ℕ → Option ℕ → ℕ
price_by_paise base none = base
price_by_paise base (some paise) = base - paise

unfoldable pub price_by_bps : ℕ → Option ℕ → Option ℕ → ℕ
price_by_bps base none paise = price_by_paise base paise
price_by_bps base (some bps) paise = base * (bps_divisor - bps) / bps_divisor

unfoldable pub price_by_fixed : ℕ → Option ℕ → Option ℕ → Option ℕ → ℕ
price_by_fixed base none bps paise = price_by_bps base bps paise
price_by_fixed base (some fixed) bps paise = fixed

-- The first of the three that is present decides: a fixed price, a rate, an amount.
unfoldable pub calculate_promotion_unit_price : ℕ → ScheduledPromotion → ℕ
unfolding price_by_fixed price_by_bps price_by_paise
calculate_promotion_unit_price base p =
    price_by_fixed base p.fixed_price_paise p.discount_bps p.discount_paise

unfoldable pub evaluate_single_scheduled_promotion :
    ℕ → ScheduledPromotion → Fallible Drift UpcomingPromotion
evaluate_single_scheduled_promotion base p = do
  throw_if (leb p.ends_at_unix p.starts_at_unix) (inverted_window p.campaign_id)
  let expected = calculate_promotion_unit_price base p
  throw_if (ltb base expected) (negative_savings p.campaign_id)
  fine (record {
    campaign_id = p.campaign_id;
    name = p.name;
    starts_at_unix = p.starts_at_unix;
    ends_at_unix = p.ends_at_unix;
    expected_unit_price_paise = expected;
    expected_savings_paise = base - expected;
    limited_stock_allocated = p.limited_stock_allocated;
  })

-- One round of the loop, on what the later rounds return: it is put before them, as `push` would.
unfoldable pub classify :
    ℕ
    → ScheduledPromotion
    → UpcomingPromotion
    → EvaluatedPromotionsResult
    → EvaluatedPromotionsResult
classify now p evaluated r =
    if leb p.starts_at_unix now && ltb now p.ends_at_unix
    then record r { active_promotions = evaluated ∷ r.active_promotions }
    else if ltb now p.starts_at_unix
    then record r { upcoming_promotions = evaluated ∷ r.upcoming_promotions }
    else r

unfoldable pub evaluate_scheduled_promotions :
    ℕ → List ScheduledPromotion → ℕ → Fallible Drift EvaluatedPromotionsResult
evaluate_scheduled_promotions base [] now =
    fine (record { active_promotions = []; upcoming_promotions = [] })
evaluate_scheduled_promotions base (p ∷ ps) now =
    evaluate_single_scheduled_promotion base p >>= λ evaluated.
    evaluate_scheduled_promotions base ps now >>= λ r. fine (classify now p evaluated r)
