-- ===== src/Pricing/Data.antt =====
-- The data of pricingEngine.ts and mcpToolTypes.ts: tiers, offers, promotions and the discount
-- lines, with the conditions that the zod schemas put on them.
use razoragent_mesh.Prelude.{ℕ, ◌≤◌, List, Option, none, some, All}
use razoragent_mesh.Prelude.Text.{Text}
use razoragent_mesh.Protocol.{bps_divisor}

pub record VolumeTier : Type 0 where
  pub min_quantity : ℕ
  pub discount_bps : ℕ

pub record TaxBreakdown : Type 0 where
  pub cgst_paise : ℕ
  pub sgst_paise : ℕ
  pub igst_paise : ℕ
  pub total_tax_paise : ℕ

pub data DiscountType : Type 0 where
  volume_tier scheduled_promotion campaign payment_rail promo_code negotiated : DiscountType

pub record AppliedDiscountItem : Type 0 where
  pub type : DiscountType
  pub discount_bps : Option ℕ
  pub discount_paise : ℕ

pub record DiscountStackResult : Type 0 where
  pub offered_unit_price_paise : ℕ
  pub applied_discounts : List AppliedDiscountItem
  pub total_savings_paise : ℕ

pub record ScheduledPromotion : Type 0 where
  pub campaign_id : Text
  pub name : Text
  pub starts_at_unix : ℕ
  pub ends_at_unix : ℕ
  pub discount_bps : Option ℕ
  pub discount_paise : Option ℕ
  pub fixed_price_paise : Option ℕ
  pub limited_stock_allocated : Option ℕ

pub record UpcomingPromotion : Type 0 where
  pub campaign_id : Text
  pub name : Text
  pub starts_at_unix : ℕ
  pub ends_at_unix : ℕ
  pub expected_unit_price_paise : ℕ
  pub expected_savings_paise : ℕ
  pub limited_stock_allocated : Option ℕ

pub record EvaluatedPromotionsResult : Type 0 where
  pub active_promotions : List UpcomingPromotion
  pub upcoming_promotions : List UpcomingPromotion

pub record MerchantCampaignOffer : Type 0 where
  pub label : Option Text
  pub discount_bps : ℕ
  pub cap_paise : Option ℕ

pub record MerchantPromoCodeOffer : Type 0 where
  pub code : Text
  pub discount_bps : ℕ
  pub label : Option Text

pub record MerchantAuthoredOffers : Type 0 where
  pub campaign : Option MerchantCampaignOffer
  pub payment_rail_cashback_paise : Option ℕ
  pub promo_codes : Option (List MerchantPromoCodeOffer)

-- `ArithmeticDriftException`, by the place that throws it.
pub data Drift : Type 0 where
  invalid_base_or_quantity : Drift
  inverted_window : Text → Drift
  negative_savings : Text → Drift

-- What the schemas demand of a rate: `z.number().int().min(0).max(10000)`.
abbrev pub IsRate : ℕ → Type 0
IsRate bps = bps ≤ bps_divisor

abbrev pub HasRate : Option ℕ → Type 0
HasRate none = Unit
HasRate (some bps) = IsRate bps

abbrev pub AreValidTiers : List VolumeTier → Type 0
AreValidTiers = All (λ t. IsRate t.discount_bps)

abbrev pub AreValidPromotions : List ScheduledPromotion → Type 0
AreValidPromotions = All (λ p. HasRate p.discount_bps)

abbrev HasValidCampaign : Option MerchantCampaignOffer → Type 0
HasValidCampaign none = Unit
HasValidCampaign (some c) = IsRate c.discount_bps

abbrev HasValidCodes : Option (List MerchantPromoCodeOffer) → Type 0
HasValidCodes none = Unit
HasValidCodes (some codes) = All (λ c. IsRate c.discount_bps) codes

abbrev pub AreValidOffers : Option MerchantAuthoredOffers → Type 0
AreValidOffers none = Unit
AreValidOffers (some o) = HasValidCampaign o.campaign × HasValidCodes o.promo_codes
