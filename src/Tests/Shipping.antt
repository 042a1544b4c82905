-- ===== src/Tests/Shipping.antt =====
-- Parcels within a city, and to an address that no state holds.
use razoragent_mesh.Prelude.Text.{codes}
use razoragent_mesh.Shipping.{same_day, ShippingSlaRequest, verify_shipping_sla}
use razoragent_mesh.Shipping.Laws.{Answers, verify_shipping_sla-Answers}

-- No state of the map has the prefix 99.
abbrev nowhere : ShippingSlaRequest
nowhere = record {
  origin_pincode = codes "990001";
  delivery_pincode = codes "990002";
  package_weight_grams = 1200;
  required_delivery_tier = same_day;
}

verify_shipping_sla-Answers_example : Answers nowhere (verify_shipping_sla nowhere)
verify_shipping_sla-Answers_example = verify_shipping_sla-Answers nowhere
