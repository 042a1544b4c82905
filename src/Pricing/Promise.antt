-- ===== src/Pricing/Promise.antt =====
-- A sale that was advertised is the price that is charged once it opens: `computeAutoDiscountStack`
-- against `evaluateScheduledPromotions`.
use razoragent_mesh.Prelude.{
  ℕ, ◌≤◌, ◌<◌, ◌≡◌, List, [], ◌∷◌, Option, none, some, All, All-Member, Member, fine, thrown, arith,
  ltb, if◌then◌else◌,
}
use razoragent_mesh.Prelude.Text.{Text, normalise}
use razoragent_mesh.Pricing.Data.{
  DiscountType, AppliedDiscountItem, DiscountStackResult, ScheduledPromotion, UpcomingPromotion,
  MerchantAuthoredOffers, EvaluatedPromotionsResult, Drift, VolumeTier, MerchantPromoCodeOffer,
}
use razoragent_mesh.Pricing.Volume.{find_matching_volume_tier}
use razoragent_mesh.Pricing.Promotions.{
  evaluate_scheduled_promotions, evaluate_single_scheduled_promotion,
  calculate_promotion_unit_price,
}
use razoragent_mesh.Pricing.Windows.{evaluate-Member_open}
use razoragent_mesh.Pricing.Stack.{
  Priced, take_off, take_off_rate, tier_step, apply_volume_tier_discount_step, resolve_sku_offers,
  deepest, promotion_off, apply_scheduled_promotion_step, apply_campaign_discount_step,
  apply_payment_rail_discount_step, find_code, matched_step, apply_promo_code_discount_step,
  StackInput, run_stack, compute_auto_discount_stack,
}

take_off-le :
    (type : DiscountType) (bps : Option ℕ) (paise : ℕ) (priced : Priced)
    → (take_off type bps paise priced).0 ≤ priced.0
unfolding take_off
take_off-le type bps paise (price, lines) = ground arith

take_off_rate-le :
    (type : DiscountType) (bps : ℕ) (priced : Priced) → (take_off_rate type bps priced).0 ≤ priced.0
unfolding take_off_rate take_off
take_off_rate-le type bps (price, lines) = ground arith

tier_step-le : (t : Option VolumeTier) (priced : Priced) → (tier_step t priced).0 ≤ priced.0
unfolding tier_step
tier_step-le none priced = omega arith
tier_step-le (some t) priced = take_off_rate-le _ _ priced

apply_volume_tier_discount_step-le :
    (q : ℕ) (tiers : List VolumeTier) (priced : Priced)
    → (apply_volume_tier_discount_step q tiers priced).0 ≤ priced.0
unfolding apply_volume_tier_discount_step
apply_volume_tier_discount_step-le q tiers priced =
    tier_step-le (find_matching_volume_tier q tiers) priced

apply_campaign_discount_step-le :
    (o : Option MerchantAuthoredOffers) (priced : Priced)
    → (apply_campaign_discount_step o priced).0 ≤ priced.0
unfolding apply_campaign_discount_step take_off
apply_campaign_discount_step-le o (price, lines) = ground arith

apply_payment_rail_discount_step-le :
    (o : Option MerchantAuthoredOffers) (priced : Priced)
    → (apply_payment_rail_discount_step o priced).0 ≤ priced.0
unfolding apply_payment_rail_discount_step
apply_payment_rail_discount_step-le o (price, lines) = take_off-le _ _ _ (price, lines)

matched_step-le :
    (o : Option MerchantPromoCodeOffer) (priced : Priced) → (matched_step o priced).0 ≤ priced.0
unfolding matched_step
matched_step-le none priced = omega arith
matched_step-le (some o) priced = take_off_rate-le _ _ priced

apply_promo_code_discount_step-le :
    (code : Option Text) (o : Option MerchantAuthoredOffers) (priced : Priced)
    → (apply_promo_code_discount_step code o priced).0 ≤ priced.0
unfolding apply_promo_code_discount_step
apply_promo_code_discount_step-le none o priced = omega arith
apply_promo_code_discount_step-le (some []) o priced = omega arith
apply_promo_code_discount_step-le (some (c ∷ code)) o priced =
    matched_step-le (find_code (normalise (c ∷ code)) (resolve_sku_offers o).promo_codes) priced

-- The steps after the sale only lower the price.
pub run_stack-le :
    (i : StackInput)
    → (run_stack i).0
      ≤ (apply_scheduled_promotion_step i.base_unit_price_paise i.promotions i.now []).0
unfolding run_stack
run_stack-le i =
    let a = apply_scheduled_promotion_step i.base_unit_price_paise i.promotions i.now [] in
    let b = apply_volume_tier_discount_step i.quantity i.volume_tiers a in
    let c = apply_campaign_discount_step i.merchant_offers b in
    let d = apply_payment_rail_discount_step i.merchant_offers c in
    omega (
      arith,
      apply_volume_tier_discount_step-le i.quantity i.volume_tiers a,
      apply_campaign_discount_step-le i.merchant_offers b,
      apply_payment_rail_discount_step-le i.merchant_offers c,
      apply_promo_code_discount_step-le i.promo_code i.merchant_offers d,
    )

abbrev expected : UpcomingPromotion → ℕ
expected u = u.expected_unit_price_paise

deepest-le_best :
    (best : UpcomingPromotion) (ps : List UpcomingPromotion)
    → expected (deepest best ps) ≤ expected best
unfolding deepest
deepest-le_best best [] = omega arith
deepest-le_best best (p ∷ ps) =
    ground (arith, deepest-le_best (if ltb (expected p) (expected best) then p else best) ps)

deepest-le :
    (best : UpcomingPromotion) (ps : List UpcomingPromotion)
    → All (λ u. expected (deepest best ps) ≤ expected u) ps
unfolding deepest
deepest-le best [] = tt
deepest-le best (p ∷ ps) =
    let next = if ltb (expected p) (expected best) then p else best in
    (ground (arith, deepest-le_best next ps), deepest-le next ps)

promotion_off-le :
    (base : ℕ) (ps : List UpcomingPromotion) (lines : List AppliedDiscountItem)
    (u : UpcomingPromotion)
    → Member u ps
    → (promotion_off base ps lines).0 ≤ expected u
unfolding promotion_off
promotion_off-le base [] lines u m = absurd m
promotion_off-le base (p ∷ ps) lines u m =
    let below =
      All-Member (λ v. expected (deepest p ps) ≤ expected v) u (p ∷ ps) m
        (deepest-le_best p ps, deepest-le p ps) in
    ground arith

advertised :
    (base : ℕ) (p : ScheduledPromotion) (u : UpcomingPromotion)
    → evaluate_single_scheduled_promotion base p ≡ fine u
    → expected u ≡ calculate_promotion_unit_price base p
unfolding evaluate_single_scheduled_promotion
advertised base p u e = ground arith

promotion_step-le :
    (base now : ℕ) (ps : List ScheduledPromotion) (r : EvaluatedPromotionsResult)
    (u : UpcomingPromotion)
    → evaluate_scheduled_promotions base ps now ≡ fine r
    → Member u r.active_promotions
    → (apply_scheduled_promotion_step base ps now []).0 ≤ expected u
unfolding apply_scheduled_promotion_step
promotion_step-le base now ps r u e m = rw e (promotion_off-le base r.active_promotions [] u m)

offered-eq :
    (i : StackInput) (s : DiscountStackResult)
    → compute_auto_discount_stack i ≡ fine s
    → s.offered_unit_price_paise ≡ (run_stack i).0
unfolding compute_auto_discount_stack
offered-eq i s e = ground arith

-- When the merchant's sales can all be evaluated, each sale that is open now bounds what is
-- charged: the offered unit price is at most the price that was advertised for it while it was
-- still to come. Later discounts lower it further and nothing raises it.
pub charged-le-advertised :
    (i : StackInput) (r : EvaluatedPromotionsResult) (p : ScheduledPromotion)
    (s : DiscountStackResult)
    → evaluate_scheduled_promotions i.base_unit_price_paise i.promotions i.now ≡ fine r
    → Member p i.promotions
    → p.starts_at_unix ≤ i.now
    → i.now < p.ends_at_unix
    → compute_auto_discount_stack i ≡ fine s
    → s.offered_unit_price_paise ≤ calculate_promotion_unit_price i.base_unit_price_paise p
charged-le-advertised i r p s e m a b f =
    let base = i.base_unit_price_paise in
    let (u, eu, mu) = evaluate-Member_open base i.now i.promotions r p e m a b in
    omega (
      arith,
      run_stack-le i,
      offered-eq i s f,
      advertised base p u eu,
      promotion_step-le base i.now i.promotions r u e mu,
    )

promotion_step-thrown :
    (base now : ℕ) (ps : List ScheduledPromotion) (d : Drift)
    → evaluate_scheduled_promotions base ps now ≡ thrown d
    → apply_scheduled_promotion_step base ps now [] ≡ apply_scheduled_promotion_step base [] now []
unfolding apply_scheduled_promotion_step evaluate_scheduled_promotions
promotion_step-thrown base now ps d e = rw e

-- A sale that cannot be evaluated (an inverted window, or a fixed price above the list price)
-- costs the SKU its sales and nothing else: the whole result, errors included, is that of the same
-- call with no sales at all.
pub malformed_sale_costs_only_sales :
    (i : StackInput) (d : Drift)
    → evaluate_scheduled_promotions i.base_unit_price_paise i.promotions i.now ≡ thrown d
    → compute_auto_discount_stack i ≡ compute_auto_discount_stack (record i { promotions = [] })
unfolding compute_auto_discount_stack run_stack
malformed_sale_costs_only_sales i d e =
    rw (promotion_step-thrown i.base_unit_price_paise i.now i.promotions d e)
