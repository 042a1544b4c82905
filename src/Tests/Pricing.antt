-- ===== src/Tests/Pricing.antt =====
-- Prices of the example item, and the pricing theorems on it.
use razoragent_mesh.Prelude.{◌+◌, ◌*◌, ◌≤◌, ◌≡◌, ◌≢◌, refl, inl, [], ◌∷◌, none, some, fine, arith}
use razoragent_mesh.Prelude.Text.{codes, normalise, text_eq, text_eq_iff}
use razoragent_mesh.Pricing.Data.{
  UpcomingPromotion, EvaluatedPromotionsResult, DiscountStackResult, DiscountType,
}
use razoragent_mesh.Pricing.Volume.{find_matching_volume_tier, find_tier, sort_tiers, insert_tier}
use razoragent_mesh.Pricing.Promotions.{
  evaluate_scheduled_promotions, evaluate_single_scheduled_promotion,
  calculate_promotion_unit_price, classify,
}
use razoragent_mesh.Pricing.Stack.{
  StackInput, compute_auto_discount_stack, run_stack, apply_scheduled_promotion_step,
  apply_volume_tier_discount_step, apply_campaign_discount_step, apply_payment_rail_discount_step,
  apply_promo_code_discount_step, take_off, take_off_rate, tier_step, promotion_step, promotion_off,
  deepest, resolve_sku_offers,
}
use razoragent_mesh.Pricing.Tiers.{IsLargestReached, find_matching_volume_tier-IsLargestReached}
use razoragent_mesh.Pricing.Promise.{charged-le-advertised}
use razoragent_mesh.Pricing.Reconciliation.{total_off, compute_auto_discount_stack_reconciles}
use razoragent_mesh.Tests.Data.{sale, tiers, no_offers}

abbrev night : StackInput
night = record {
  base_unit_price_paise = 100000;
  quantity = 6;
  volume_tiers = tiers;
  promo_code = none;
  merchant_offers = some no_offers;
  promotions = sale ∷ [];
  now = 1500;
}

compute_auto_discount_stack_reconciles_example :
    (r : DiscountStackResult) × (compute_auto_discount_stack night ≡ fine r)
    × (r.offered_unit_price_paise + total_off r.applied_discounts ≡ 100000)
    × (r.total_savings_paise ≡ total_off r.applied_discounts * 6)
compute_auto_discount_stack_reconciles_example =
    compute_auto_discount_stack_reconciles night (omega arith, (omega arith, (omega arith, tt)))
      (tt, tt) (omega arith)

abbrev open_sale : UpcomingPromotion
open_sale = record {
  campaign_id = codes "NIGHT";
  name = codes "Night sale";
  starts_at_unix = 1000;
  ends_at_unix = 2000;
  expected_unit_price_paise = 80000;
  expected_savings_paise = 20000;
  limited_stock_allocated = none;
}

abbrev one_open : EvaluatedPromotionsResult
one_open = record { active_promotions = open_sale ∷ []; upcoming_promotions = [] }

night_sales : evaluate_scheduled_promotions 100000 (sale ∷ []) 1500 ≡ fine one_open
unfolding evaluate_scheduled_promotions evaluate_single_scheduled_promotion
    calculate_promotion_unit_price classify
night_sales = refl

-- The sale comes first, then seven percent off for six units.
abbrev night_price : DiscountStackResult
night_price = record {
  offered_unit_price_paise = 74400;
  applied_discounts =
      record {
        type = DiscountType.scheduled_promotion;
        discount_bps = none;
        discount_paise = 20000;
      }
      ∷ record { type = DiscountType.volume_tier; discount_bps = some 700; discount_paise = 5600 }
      ∷ [];
  total_savings_paise = 153600;
}

night_priced : compute_auto_discount_stack night ≡ fine night_price
unfolding compute_auto_discount_stack run_stack apply_scheduled_promotion_step
    apply_volume_tier_discount_step apply_campaign_discount_step apply_payment_rail_discount_step
    apply_promo_code_discount_step find_matching_volume_tier find_tier sort_tiers insert_tier
    take_off take_off_rate tier_step promotion_step promotion_off deepest resolve_sku_offers
    evaluate_scheduled_promotions evaluate_single_scheduled_promotion calculate_promotion_unit_price
    classify
night_priced = refl

charged-le-advertised_example : 74400 ≤ calculate_promotion_unit_price 100000 sale
charged-le-advertised_example =
    charged-le-advertised night one_open sale night_price night_sales (inl refl) (omega arith)
      (omega arith) night_priced

find_matching_volume_tier-IsLargestReached_example :
    IsLargestReached 6 tiers (some (record { min_quantity = 5; discount_bps = 700 }))
unfolding find_matching_volume_tier find_tier sort_tiers insert_tier
find_matching_volume_tier-IsLargestReached_example =
    find_matching_volume_tier-IsLargestReached 6 tiers

apart : normalise (codes "MH") ≢ normalise (codes "KA")
unfolding normalise text_eq
apart = λ e. cc ((text_eq_iff (normalise (codes "MH")) (normalise (codes "KA"))).1 e)
