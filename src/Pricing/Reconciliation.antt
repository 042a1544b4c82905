-- ===== src/Pricing/Reconciliation.antt =====
-- The discount lines of the stack account for the whole reduction: each step of
-- `computeAutoDiscountStack` keeps price plus lines at the base price.
use razoragent_mesh.Prelude.{
  ℕ, ◌+◌, ◌-◌, ◌*◌, ◌/◌, ◌≤◌, ◌≡◌, refl, ap, max, ltb, if_both, if◌then◌else◌, All-map, List, [],
  ◌∷◌, Option, none, some, inl, inr, All, sum_by, sum_by-append, Fallible, fine, thrown, arith,
  Bool-cases, Option-cases,
}
use razoragent_mesh.Prelude.Text.{Text, text_eq, normalise}
use razoragent_mesh.Pricing.Data.{
  VolumeTier, DiscountType, AppliedDiscountItem, DiscountStackResult, ScheduledPromotion,
  UpcomingPromotion, MerchantPromoCodeOffer, MerchantAuthoredOffers, Drift,
  EvaluatedPromotionsResult, IsRate, AreValidTiers, AreValidOffers,
}
use razoragent_mesh.Pricing.Volume.{find_matching_volume_tier}
use razoragent_mesh.Pricing.Tiers.{find_matching_volume_tier-All}
use razoragent_mesh.Pricing.Promotions.{evaluate_scheduled_promotions}
use razoragent_mesh.Pricing.Windows.{IsPriced, evaluate-IsSplit}
use razoragent_mesh.Pricing.Stack.{
  Priced, take_off, take_off_rate, apply_volume_tier_discount_step, resolve_sku_offers, deepest,
  promotion_off, promotion_step, apply_scheduled_promotion_step, capped,
  apply_campaign_discount_step, apply_payment_rail_discount_step, find_code,
  apply_promo_code_discount_step, StackInput, run_stack, compute_auto_discount_stack,
}

abbrev pub total_off : List AppliedDiscountItem → ℕ
total_off = sum_by (λ d. d.discount_paise)

-- The price with all that the lines took off is the base price.
abbrev pub Reconciles : ℕ → Priced → Type 0
Reconciles base priced = priced.0 + total_off priced.1 ≡ base

pub share-le : (price bps : ℕ) → IsRate bps → price * bps / 10000 ≤ price
share-le price bps h = grind arith

pub take_off-Reconciles :
    (type : DiscountType) (bps : Option ℕ) (paise base : ℕ) (priced : Priced)
    → paise ≤ priced.0
    → Reconciles base priced
    → Reconciles base (take_off type bps paise priced)
unfolding take_off
take_off-Reconciles type bps paise base (price, lines) h r = ground (
  arith,
  sum_by-append (λ d. d.discount_paise) lines
      (record { type = type; discount_bps = bps; discount_paise = paise } ∷ []),
)

take_off_rate-Reconciles :
    (type : DiscountType) (bps base : ℕ) (priced : Priced)
    → IsRate bps
    → Reconciles base priced
    → Reconciles base (take_off_rate type bps priced)
unfolding take_off_rate
take_off_rate-Reconciles type bps base (price, lines) h r = ground (
  arith,
  take_off-Reconciles type (some bps) (price * bps / 10000) base (price, lines),
  share-le price bps h,
)

apply_volume_tier_discount_step-Reconciles :
    (base quantity : ℕ) (tiers : List VolumeTier) (priced : Priced)
    → AreValidTiers tiers
    → Reconciles base priced
    → Reconciles base (apply_volume_tier_discount_step quantity tiers priced)
unfolding apply_volume_tier_discount_step
apply_volume_tier_discount_step-Reconciles base quantity tiers priced h r =
    elim (Option-cases (find_matching_volume_tier quantity tiers)) [
      | inl e ↦ rw e r
      | inr (t, e) ↦ rw e (
          take_off_rate-Reconciles _ _ base priced
            (find_matching_volume_tier-All (λ u. IsRate u.discount_bps) quantity tiers t h e) r)
    ]

capped-le : (cap : Option ℕ) (paise : ℕ) → capped cap paise ≤ paise
unfolding capped
capped-le none paise = omega arith
capped-le (some cap) paise = omega arith

campaign_bps-IsRate :
    (offers : Option MerchantAuthoredOffers)
    → AreValidOffers offers
    → IsRate (resolve_sku_offers offers).campaign_bps
unfolding resolve_sku_offers
campaign_bps-IsRate none h = omega arith
campaign_bps-IsRate (some o) h = ground arith

promo_codes-AreRates :
    (offers : Option MerchantAuthoredOffers)
    → AreValidOffers offers
    → All (λ c. IsRate c.discount_bps) (resolve_sku_offers offers).promo_codes
unfolding resolve_sku_offers
promo_codes-AreRates none h = (omega arith, tt)
promo_codes-AreRates (some o) h = elim (Option-cases o.promo_codes) [
  | inl e ↦ rw e tt
  | inr (codes, e) ↦ rw e (rw e at h.1)
]

apply_campaign_discount_step-Reconciles :
    (base : ℕ) (offers : Option MerchantAuthoredOffers) (priced : Priced)
    → AreValidOffers offers
    → Reconciles base priced
    → Reconciles base (apply_campaign_discount_step offers priced)
unfolding apply_campaign_discount_step
apply_campaign_discount_step-Reconciles base offers (price, lines) h r =
    let o = resolve_sku_offers offers in
    let share = price * o.campaign_bps / 10000 in
    ground (
      arith,
      capped-le o.campaign_cap_paise share,
      share-le price o.campaign_bps (campaign_bps-IsRate offers h),
      take_off-Reconciles DiscountType.campaign (some o.campaign_bps)
          (capped o.campaign_cap_paise share) base (price, lines),
    )

apply_payment_rail_discount_step-Reconciles :
    (base : ℕ) (offers : Option MerchantAuthoredOffers) (priced : Priced)
    → Reconciles base priced
    → Reconciles base (apply_payment_rail_discount_step offers priced)
unfolding apply_payment_rail_discount_step
apply_payment_rail_discount_step-Reconciles base offers (price, lines) r =
    take_off-Reconciles DiscountType.payment_rail none _ base (price, lines) (omega arith) r

find_code-IsRate :
    (code : Text) (os : List MerchantPromoCodeOffer) (o : MerchantPromoCodeOffer)
    → All (λ c. IsRate c.discount_bps) os
    → find_code code os ≡ some o
    → IsRate o.discount_bps
unfolding find_code
find_code-IsRate code [] o h e = cc
find_code-IsRate code (c ∷ os) o (p, h) e = elim (Bool-cases (text_eq (normalise c.code) code)) [
  | inl b ↦ let same : c ≡ o = ground arith in rw (← same) p
  | inr b ↦ find_code-IsRate code os o h (ground arith)
]

apply_promo_code_discount_step-Reconciles :
    (base : ℕ) (code : Option Text) (offers : Option MerchantAuthoredOffers) (priced : Priced)
    → AreValidOffers offers
    → Reconciles base priced
    → Reconciles base (apply_promo_code_discount_step code offers priced)
unfolding apply_promo_code_discount_step
apply_promo_code_discount_step-Reconciles base none offers priced h r = r
apply_promo_code_discount_step-Reconciles base (some []) offers priced h r = r
apply_promo_code_discount_step-Reconciles base (some (c ∷ code)) offers priced h r =
    let listed = (resolve_sku_offers offers).promo_codes in
    elim (Option-cases (find_code (normalise (c ∷ code)) listed)) [
      | inl e ↦ rw e r
      | inr (o, e) ↦ rw e (
          take_off_rate-Reconciles _ _ base priced
            (find_code-IsRate (normalise (c ∷ code)) listed o (promo_codes-AreRates offers h) e) r)
    ]

deepest-All {κ} :
    (P : UpcomingPromotion → Type κ) (best : UpcomingPromotion) (ps : List UpcomingPromotion)
    → P best
    → All P ps
    → P (deepest best ps)
unfolding deepest
deepest-All P best [] h k = h
deepest-All P best (p ∷ ps) h (k, ks) =
    deepest-All P
      (if ltb p.expected_unit_price_paise best.expected_unit_price_paise then p else best) ps
      (if_both P (ltb p.expected_unit_price_paise best.expected_unit_price_paise) p best k h) ks

promotion_off-Reconciles :
    (base : ℕ) (ps : List UpcomingPromotion)
    → All (IsPriced base) ps
    → Reconciles base (promotion_off base ps [])
unfolding promotion_off
promotion_off-Reconciles base [] h = omega arith
promotion_off-Reconciles base (p ∷ ps) h = ground (arith, deepest-All (IsPriced base) p ps h.0 h.1)

apply_scheduled_promotion_step-Reconciles :
    (base : ℕ) (ps : List ScheduledPromotion) (now : ℕ)
    → Reconciles base (apply_scheduled_promotion_step base ps now [])
unfolding apply_scheduled_promotion_step
apply_scheduled_promotion_step-Reconciles base ps now =
    go (evaluate_scheduled_promotions base ps now) refl
  where
    go :
        (r : Fallible Drift EvaluatedPromotionsResult)
        → evaluate_scheduled_promotions base ps now ≡ r
        → Reconciles base (promotion_step base r [])
    go (thrown d) e = omega arith
    go (fine r) e =
        promotion_off-Reconciles base r.active_promotions
          (All-map (λ u h. h.1) r.active_promotions (evaluate-IsSplit base now ps r e).0)

run_stack-Reconciles :
    (i : StackInput)
    → AreValidTiers i.volume_tiers
    → AreValidOffers i.merchant_offers
    → Reconciles i.base_unit_price_paise (run_stack i)
unfolding run_stack
run_stack-Reconciles i t o =
    apply_promo_code_discount_step-Reconciles _ i.promo_code i.merchant_offers _ o (
      apply_payment_rail_discount_step-Reconciles _ i.merchant_offers _ (
        apply_campaign_discount_step-Reconciles _ i.merchant_offers _ o (
          apply_volume_tier_discount_step-Reconciles _ i.quantity i.volume_tiers _ t (
            apply_scheduled_promotion_step-Reconciles i.base_unit_price_paise i.promotions i.now))))

-- What a call on a positive quantity returns.
pub stack_result : StackInput → DiscountStackResult
stack_result i = record {
  offered_unit_price_paise = max 0 (run_stack i).0;
  applied_discounts = (run_stack i).1;
  total_savings_paise = (i.base_unit_price_paise - max 0 (run_stack i).0) * i.quantity;
}

-- The stack's result on a quantity of at least one, under the schema's bounds on the rates: the
-- call returns, the offered price is the base price less exactly the sum of the discount lines,
-- and the savings are that sum for each unit.
pub compute_auto_discount_stack_reconciles :
    (i : StackInput)
    → AreValidTiers i.volume_tiers
    → AreValidOffers i.merchant_offers
    → 1 ≤ i.quantity
    → (r : DiscountStackResult) × (compute_auto_discount_stack i ≡ fine r)
      × (r.offered_unit_price_paise + total_off r.applied_discounts ≡ i.base_unit_price_paise)
      × (r.total_savings_paise ≡ total_off r.applied_discounts * i.quantity)
unfolding compute_auto_discount_stack stack_result
compute_auto_discount_stack_reconciles i t o q = (
  stack_result i,
  ground arith,
  ground (arith, run_stack-Reconciles i t o),
  ap (λ (n : ℕ). n * i.quantity) (ground (arith, run_stack-Reconciles i t o)),
)
