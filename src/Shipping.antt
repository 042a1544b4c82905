-- ===== src/Shipping.antt =====
-- packages/mcpServer/src/tools/slaVerifier.ts: zones, delivery tiers, the weight surcharge and the
-- answer of verify_shipping_sla. The request has passed shippingSlaSchema.ts; of the reason text the
-- model keeps which of its two forms is given.
pub mod Laws
use razoragent_mesh.Prelude.{
  ℕ, ◌+◌, ◌-◌, ◌*◌, ◌/◌, max, List, [], ◌∷◌, Option, none, some, Bool, true, false, ◌||◌, leb,
  if◌then◌else◌, or_else, take,
}
use razoragent_mesh.Prelude.Text.{Text, text_eq}
use razoragent_mesh.Protocol.{default_fallback_state}
use razoragent_mesh.Catalog.{CatalogSkuItem, CatalogStore, get_sku}
use razoragent_mesh.Quote.Price.{lookup_state_from_pincode}

pub data ZoneCode : Type 0 where
  zone_a zone_b zone_c zone_d : ZoneCode

pub data DeliveryTier : Type 0 where
  standard express same_day : DeliveryTier

pub data Courier : Type 0 where
  delhivery blue_dart : Courier

pub record TierSla : Type 0 where
  pub sla_hours : ℕ
  pub base_cost_paise : ℕ
  pub courier : Courier

abbrev pub base_weight_grams_limit : ℕ
base_weight_grams_limit = 500

abbrev pub extra_weight_chunk_grams : ℕ
extra_weight_chunk_grams = 500

abbrev pub extra_weight_surcharge_paise : ℕ
extra_weight_surcharge_paise = 1000

abbrev pub default_package_weight_grams : ℕ
default_package_weight_grams = 750

-- `catalogStore.getSku(skuId)?.weightGrams ?? defaultPackageWeightGrams`
unfoldable pub unit_grams : Option CatalogSkuItem → ℕ
unit_grams none = default_package_weight_grams
unit_grams (some sku) = or_else sku.weight_grams default_package_weight_grams

unfoldable pub resolve_billable_weight_grams : Text → ℕ → CatalogStore → ℕ
unfolding unit_grams
resolve_billable_weight_grams sku_id quantity store =
    max 1 (unit_grams (get_sku sku_id store) * quantity)

-- The zone outside the origin's city, by the two states.
unfoldable pub state_zone : Text → Option Text → ZoneCode
state_zone origin_state none = zone_d
state_zone origin_state (some delivery_state) =
    if text_eq origin_state delivery_state then zone_b else zone_c

unfoldable pub resolve_zone_code : Text → Text → ZoneCode
unfolding state_zone
resolve_zone_code origin delivery =
    if text_eq (take 3 origin) (take 3 delivery)
    then zone_a
    else state_zone (or_else (lookup_state_from_pincode origin) default_fallback_state)
        (lookup_state_from_pincode delivery)

-- `Math.ceil(excessGrams / extraWeightChunkGrams)` on whole grams.
unfoldable pub extra_chunks : ℕ → ℕ
extra_chunks grams =
    (grams - base_weight_grams_limit + (extra_weight_chunk_grams - 1)) / extra_weight_chunk_grams

unfoldable pub compute_weight_surcharge : ℕ → ℕ
unfolding extra_chunks
compute_weight_surcharge grams =
    if leb grams base_weight_grams_limit
    then 0
    else extra_chunks grams * extra_weight_surcharge_paise

unfoldable pub resolve_tier_and_sla : ZoneCode → DeliveryTier → TierSla
resolve_tier_and_sla zone_a same_day = record {
  sla_hours = 6;
  base_cost_paise = 15000;
  courier = blue_dart;
}
resolve_tier_and_sla zone_a express = record {
  sla_hours = 12;
  base_cost_paise = 8000;
  courier = blue_dart;
}
resolve_tier_and_sla zone_a standard = record {
  sla_hours = 24;
  base_cost_paise = 4000;
  courier = delhivery;
}
resolve_tier_and_sla zone_b standard = record {
  sla_hours = 48;
  base_cost_paise = 7000;
  courier = delhivery;
}
resolve_tier_and_sla zone_b _ = record {
  sla_hours = 24;
  base_cost_paise = 12000;
  courier = blue_dart;
}
resolve_tier_and_sla _ standard = record {
  sla_hours = 72;
  base_cost_paise = 12000;
  courier = delhivery;
}
resolve_tier_and_sla _ _ = record { sla_hours = 36; base_cost_paise = 22000; courier = blue_dart }

unfoldable pub available_tiers_for_zone : ZoneCode → List DeliveryTier
available_tiers_for_zone zone_d = []
available_tiers_for_zone zone_a = standard ∷ express ∷ same_day ∷ []
available_tiers_for_zone _ = standard ∷ express ∷ []

unfoldable pub same_tier : DeliveryTier → DeliveryTier → Bool
same_tier standard standard = true
same_tier express express = true
same_tier same_day same_day = true
same_tier _ _ = false

-- `availableTiers.includes(tier)`
unfoldable pub includes : DeliveryTier → List DeliveryTier → Bool
includes t [] = false
includes t (u ∷ us) = same_tier u t || includes t us

pub record ShippingSlaRequest : Type 0 where
  pub origin_pincode : Text
  pub delivery_pincode : Text
  pub package_weight_grams : ℕ
  pub required_delivery_tier : DeliveryTier

pub data UnserviceableReason : Type 0 where
  no_courier tier_not_offered : UnserviceableReason

pub record ShippingSlaResponse : Type 0 where
  pub guaranteed_sla_hours : ℕ
  pub shipping_cost_paise : ℕ
  pub courier_partner : Courier
  pub zone_code : ZoneCode
  pub serviceable : Bool
  pub unserviceable_reason : Option UnserviceableReason
  pub available_delivery_tiers : List DeliveryTier

-- What a tier of a zone costs and promises for a parcel.
unfoldable pub offer :
    ZoneCode → DeliveryTier → ℕ → Option UnserviceableReason → Bool → ShippingSlaResponse
offer zone tier grams reason serviceable =
    let sla = resolve_tier_and_sla zone tier in
    record {
      guaranteed_sla_hours = sla.sla_hours;
      shipping_cost_paise = sla.base_cost_paise + compute_weight_surcharge grams;
      courier_partner = sla.courier;
      zone_code = zone;
      serviceable = serviceable;
      unserviceable_reason = reason;
      available_delivery_tiers = available_tiers_for_zone zone;
    }

-- After the zone is known, by the tiers that it offers.
unfoldable pub answer : ShippingSlaRequest → ZoneCode → List DeliveryTier → ShippingSlaResponse
unfolding offer
answer r zone [] = record {
  guaranteed_sla_hours = 72;
  shipping_cost_paise = 0;
  courier_partner = delhivery;
  zone_code = zone;
  serviceable = false;
  unserviceable_reason = some no_courier;
  available_delivery_tiers = [];
}
answer r zone (t ∷ ts) =
    if includes r.required_delivery_tier (t ∷ ts)
    then offer zone r.required_delivery_tier r.package_weight_grams none true
    else offer zone express r.package_weight_grams (some tier_not_offered) false

unfoldable pub verify_shipping_sla : ShippingSlaRequest → ShippingSlaResponse
unfolding answer
verify_shipping_sla r =
    let zone = resolve_zone_code r.origin_pincode r.delivery_pincode in
    answer r zone (available_tiers_for_zone zone)
