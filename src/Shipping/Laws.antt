-- ===== src/Shipping/Laws.antt =====
-- What verify_shipping_sla answers on every branch, and what the surcharge buys.
use razoragent_mesh.Prelude.{
  ℕ, ◌+◌, ◌*◌, ◌≤◌, ◌<◌, ◌≡◌, ◌≢◌, ◌⊎◌, refl, ap, inl, inr, [], ◌∷◌, Option, none, some, true,
  false, take, arith, Bool-cases,
}
use razoragent_mesh.Prelude.Text.{Text, text_eq, text_eq_iff}
use razoragent_mesh.Quote.Price.{lookup_state_from_pincode}
use razoragent_mesh.Shipping.{
  zone_a, zone_b, zone_c, DeliveryTier, standard, express, same_day, state_zone, resolve_zone_code,
  extra_chunks, compute_weight_surcharge, resolve_tier_and_sla, available_tiers_for_zone, same_tier,
  includes, ShippingSlaRequest, no_courier, tier_not_offered, ShippingSlaResponse, offer, answer,
  verify_shipping_sla,
}

-- The surcharge buys whole chunks: as many as cover the weight above the limit, and one fewer would
-- not; a heavier parcel never costs less.
pub compute_weight_surcharge_chunks :
    (grams heavier : ℕ)
    → grams ≤ heavier
    → (chunks : ℕ) × (compute_weight_surcharge grams ≡ chunks * 1000)
      × (grams ≤ 500 + chunks * 500)
      × ((chunks ≡ 0) ⊎ (chunks * 500 < grams))
      × (compute_weight_surcharge grams ≤ compute_weight_surcharge heavier)
unfolding compute_weight_surcharge extra_chunks
compute_weight_surcharge_chunks grams heavier h =
    (extra_chunks grams, ground arith, ground arith, ground arith, ground arith)

-- What a courier serves: an address in the origin's city, by the first three digits, or in a state
-- that the mesh knows.
abbrev pub IsServed : ShippingSlaRequest → Type 0
IsServed r =
    (take 3 r.origin_pincode ≡ take 3 r.delivery_pincode)
    ⊎ ((state : Text) × (lookup_state_from_pincode r.delivery_pincode ≡ some state))

abbrev pub IsUnserved : ShippingSlaRequest → Type 0
IsUnserved r =
    (take 3 r.origin_pincode ≢ take 3 r.delivery_pincode)
    × (lookup_state_from_pincode r.delivery_pincode ≡ none)

-- A price is at least `base` and at most `top`, and on it whole chunks of 500 grams for the weight
-- above the first 500, none to spare, at 1000 paise each.
abbrev pub IsPriced : ℕ → ℕ → ℕ → ℕ → Type 0
IsPriced base top grams cost =
    (price chunks : ℕ) × (base ≤ price)
    × (price ≤ top)
    × (cost ≡ price + chunks * 1000)
    × (grams ≤ 500 + chunks * 500)
    × ((chunks ≡ 0) ⊎ (chunks * 500 < grams))

-- What a tier promises at most: its hours, its lowest and its highest price before the surcharge.
abbrev pub most_hours : DeliveryTier → ℕ
most_hours standard = 72
most_hours express = 36
most_hours same_day = 6

abbrev pub least_price : DeliveryTier → ℕ
least_price standard = 4000
least_price express = 8000
least_price same_day = 15000

abbrev pub most_price : DeliveryTier → ℕ
most_price standard = 12000
most_price express = 22000
most_price same_day = 15000

-- The three answers: no courier, with nothing to pay and no tier to choose; same-day outside the city,
-- with the express offer as advice; or the tier promised.
abbrev pub Answers : ShippingSlaRequest → ShippingSlaResponse → Type 0
Answers r a =
    IsUnserved r
      × (a.serviceable ≡ false)
      × (a.unserviceable_reason ≡ some no_courier)
      × (a.shipping_cost_paise ≡ 0)
      × (a.available_delivery_tiers ≡ [])
    ⊎ IsServed r
      × (take 3 r.origin_pincode ≢ take 3 r.delivery_pincode)
      × (r.required_delivery_tier ≡ same_day)
      × (a.serviceable ≡ false)
      × (a.unserviceable_reason ≡ some tier_not_offered)
      × (a.available_delivery_tiers ≡ standard ∷ express ∷ [])
      × (24 ≤ a.guaranteed_sla_hours)
      × (a.guaranteed_sla_hours ≤ 36)
      × IsPriced 12000 22000 r.package_weight_grams a.shipping_cost_paise
    ⊎ IsServed r
      × (r.required_delivery_tier ≡ same_day → take 3 r.origin_pincode ≡ take 3 r.delivery_pincode)
      × (a.serviceable ≡ true)
      × (a.unserviceable_reason ≡ none)
      × (a.guaranteed_sla_hours ≤ most_hours r.required_delivery_tier)
      × IsPriced (least_price r.required_delivery_tier) (most_price r.required_delivery_tier)
          r.package_weight_grams a.shipping_cost_paise

priced :
    (base top price grams : ℕ)
    → base ≤ price
    → price ≤ top
    → IsPriced base top grams (price + compute_weight_surcharge grams)
priced base top price grams low high =
    let (chunks, cost, covers, spare, mono) =
      compute_weight_surcharge_chunks grams grams (omega arith) in
    (price, chunks, low, high, ap (λ (n : ℕ). price + n) cost, covers, spare)

in_city :
    (r : ShippingSlaRequest) (tier : DeliveryTier)
    → r.required_delivery_tier ≡ tier
    → take 3 r.origin_pincode ≡ take 3 r.delivery_pincode
    → Answers r (answer r zone_a (available_tiers_for_zone zone_a))
unfolding answer available_tiers_for_zone offer includes same_tier resolve_tier_and_sla
in_city r standard e same = rw e (
    inr (
      inr (
        inl same,
        λ q. same,
        refl,
        refl,
        omega arith,
        priced _ _ 4000 _ (omega arith) (omega arith),
      )))
in_city r express e same = rw e (
    inr (
      inr (
        inl same,
        λ q. same,
        refl,
        refl,
        omega arith,
        priced _ _ 8000 _ (omega arith) (omega arith),
      )))
in_city r same_day e same = rw e (
    inr (
      inr (
        inl same,
        λ q. same,
        refl,
        refl,
        omega arith,
        priced _ _ 15000 _ (omega arith) (omega arith),
      )))

module _ (r : ShippingSlaRequest) (away : take 3 r.origin_pincode ≢ take 3 r.delivery_pincode)
    (served : IsServed r) where
  in_state :
      (tier : DeliveryTier)
      → r.required_delivery_tier ≡ tier
      → Answers r (answer r zone_b (available_tiers_for_zone zone_b))
  unfolding answer available_tiers_for_zone offer includes same_tier resolve_tier_and_sla
  in_state standard e = rw e (
      inr (
        inr (
          served,
          λ q. cc,
          refl,
          refl,
          omega arith,
          priced _ _ 7000 _ (omega arith) (omega arith),
        )))
  in_state express e = rw e (
      inr (
        inr (
          served,
          λ q. cc,
          refl,
          refl,
          omega arith,
          priced _ _ 12000 _ (omega arith) (omega arith),
        )))
  in_state same_day e = rw e (
      inr (
        inl (
          served,
          away,
          refl,
          refl,
          refl,
          refl,
          omega arith,
          omega arith,
          priced _ _ 12000 _ (omega arith) (omega arith),
        )))

  out_of_state :
      (tier : DeliveryTier)
      → r.required_delivery_tier ≡ tier
      → Answers r (answer r zone_c (available_tiers_for_zone zone_c))
  unfolding answer available_tiers_for_zone offer includes same_tier resolve_tier_and_sla
  out_of_state standard e = rw e (
      inr (
        inr (
          served,
          λ q. cc,
          refl,
          refl,
          omega arith,
          priced _ _ 12000 _ (omega arith) (omega arith),
        )))
  out_of_state express e = rw e (
      inr (
        inr (
          served,
          λ q. cc,
          refl,
          refl,
          omega arith,
          priced _ _ 22000 _ (omega arith) (omega arith),
        )))
  out_of_state same_day e = rw e (
      inr (
        inl (
          served,
          away,
          refl,
          refl,
          refl,
          refl,
          omega arith,
          omega arith,
          priced _ _ 22000 _ (omega arith) (omega arith),
        )))

outside :
    (r : ShippingSlaRequest) (origin_state : Text) (o : Option Text)
    → take 3 r.origin_pincode ≢ take 3 r.delivery_pincode
    → lookup_state_from_pincode r.delivery_pincode ≡ o
    → Answers r (
        answer r (state_zone origin_state o) (available_tiers_for_zone (state_zone origin_state o)))
unfolding state_zone answer available_tiers_for_zone
outside r origin_state none away e = inl ((away, e), refl, refl, refl, refl)
outside r origin_state (some state) away e = elim (Bool-cases (text_eq origin_state state)) [
  | inl same ↦ rw same (in_state r away (inr (state, e)) r.required_delivery_tier refl)
  | inr other ↦ rw other (out_of_state r away (inr (state, e)) r.required_delivery_tier refl)
]

-- Every request gets one of three answers. Outside the origin's city (the first three digits of the
-- two pincodes differ) and in no state that the mesh knows: no courier, nothing charged, no tier
-- listed. Same-day outside the city, in a known state: refused, with standard and express listed
-- and the express offer as advice, of 24 to 36 hours. Any other tier in a known state, and any tier
-- in the city, also where its prefix is in no state: promised, within 72, 36 and 6 hours and at a
-- price of 4000 to 12000, 8000 to 22000 and 15000 paise for standard, express and same-day. On a
-- price come 1000 paise for every 500 grams begun above the first 500.
pub verify_shipping_sla-Answers : (r : ShippingSlaRequest) → Answers r (verify_shipping_sla r)
unfolding verify_shipping_sla resolve_zone_code
verify_shipping_sla-Answers r =
    let same = text_eq_iff (take 3 r.origin_pincode) (take 3 r.delivery_pincode) in
    elim (Bool-cases (text_eq (take 3 r.origin_pincode) (take 3 r.delivery_pincode))) [
      | inl e ↦ rw e (in_city r r.required_delivery_tier refl (same.0 e))
      | inr e ↦
          rw e (
            outside r _ (lookup_state_from_pincode r.delivery_pincode) (λ q. cc (e, same.1 q)) refl)
    ]
