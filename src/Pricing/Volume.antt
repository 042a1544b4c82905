-- ===== src/Pricing/Volume.antt =====
-- The volume tiers and the GST split of pricingEngine.ts.
use razoragent_mesh.Prelude.{
  ℕ, ◌+◌, ◌-◌, ◌*◌, ◌/◌, List, [], ◌∷◌, Option, none, some, ltb, leb, if◌then◌else◌, Fallible, fine,
  throw_if, ◌>>◌,
}
use razoragent_mesh.Prelude.Text.{Text, text_eq, normalise}
use razoragent_mesh.Protocol.{bps_divisor, percent_divisor, intra_state_half_bps_divisor}
use razoragent_mesh.Pricing.Data.{VolumeTier, TaxBreakdown, Drift, invalid_base_or_quantity}

-- `sort((a, b) => b.minQuantity - a.minQuantity)`: descending, and stable.
unfoldable pub insert_tier : VolumeTier → List VolumeTier → List VolumeTier
insert_tier t [] = t ∷ []
insert_tier t (u ∷ us) =
    if leb u.min_quantity t.min_quantity then t ∷ u ∷ us else u ∷ insert_tier t us

unfoldable pub sort_tiers : List VolumeTier → List VolumeTier
sort_tiers [] = []
sort_tiers (t ∷ ts) = insert_tier t (sort_tiers ts)

unfoldable pub find_tier : ℕ → List VolumeTier → Option VolumeTier
find_tier quantity [] = none
find_tier quantity (t ∷ ts) = if leb t.min_quantity quantity then some t else find_tier quantity ts

unfoldable pub find_matching_volume_tier : ℕ → List VolumeTier → Option VolumeTier
unfolding find_tier sort_tiers insert_tier
find_matching_volume_tier quantity tiers = find_tier quantity (sort_tiers tiers)

pub record PricingResult : Type 0 where
  pub base_unit_price_paise : ℕ
  pub offered_unit_price_paise : ℕ
  pub discount_bps : ℕ
  pub unit_discount_paise : ℕ
  pub total_base_paise : ℕ
  pub total_offered_paise : ℕ

tier_bps : Option VolumeTier → ℕ
tier_bps none = 0
tier_bps (some t) = t.discount_bps

unfoldable pub calculate_volume_pricing : ℕ → ℕ → List VolumeTier → Fallible Drift PricingResult
unfolding tier_bps
calculate_volume_pricing base quantity tiers = do
  throw_if (ltb quantity 1) invalid_base_or_quantity
  let bps = tier_bps (find_matching_volume_tier quantity tiers)
  let unit_discount = base * bps / bps_divisor
  let offered = base - unit_discount
  fine (record {
    base_unit_price_paise = base;
    offered_unit_price_paise = offered;
    discount_bps = bps;
    unit_discount_paise = unit_discount;
    total_base_paise = base * quantity;
    total_offered_paise = offered * quantity;
  })

-- At a whole rate, where the code's `Math.floor` of the rate in basis points changes nothing.
unfoldable pub calculate_gst_breakdown : ℕ → ℕ → Text → Text → TaxBreakdown
calculate_gst_breakdown taxable gst_rate_percent merchant_state buyer_state =
    let rate_bps = gst_rate_percent * percent_divisor in
    let half = taxable * rate_bps / intra_state_half_bps_divisor in
    let igst = taxable * rate_bps / bps_divisor in
    if text_eq (normalise merchant_state) (normalise buyer_state)
    then record {
      cgst_paise = half;
      sgst_paise = half;
      igst_paise = 0;
      total_tax_paise = half + half;
    }
    else record { cgst_paise = 0; sgst_paise = 0; igst_paise = igst; total_tax_paise = igst }
