-- ===== src/Tests/Carts.antt =====
-- The example session's cart, from the example quote.
use razoragent_mesh.Prelude.{◌≡◌, refl, fine}
use razoragent_mesh.Prelude.Text.{codes, text_eq, trim, trim_start, is_space, lower, lower_case}
use razoragent_mesh.Prelude.Dict.{lookup}
use razoragent_mesh.Protocol.{pincode_prefix_state_map}
use razoragent_mesh.Crypto.{
  verify_quote_hash, compute_quote_hash, build_quote_payload, from_hex, hex_value,
  verify_lock_signature,
}
use razoragent_mesh.Catalog.{get_sku}
use razoragent_mesh.Quote.Price.{lookup_state_from_pincode}
use razoragent_mesh.Quote.Package.{quote_response}
use razoragent_mesh.Shipping.{
  resolve_billable_weight_grams, unit_grams, verify_shipping_sla, resolve_zone_code, state_zone,
  available_tiers_for_zone, answer, offer, includes, same_tier, resolve_tier_and_sla,
}
use razoragent_mesh.Sdk.Json.{verify_no_floats, canonicalize_json_string}
use razoragent_mesh.Sdk.Keys.{
  from_seed, manager_of, format_agent_did, is_hex, is_hex_of, is_hex_digit, sign_canonical_bytes,
}
use razoragent_mesh.Sdk.Pow.{zeros}
use razoragent_mesh.Sdk.Mandates.{
  CartMandate, drifted, has_no_items, signed_items, with_signed_category,
  create_signed_cart_mandate, sign_payload, compute_mandate_hash, signed_cart_fields,
  unsigned_fields, is_signature_key, cart_fields, item_values, item_fields, category_fields,
  tax_fields,
}
use razoragent_mesh.Delegation.{keyed, signed_by_sdk, load_delegation_session}
use razoragent_mesh.Delegation.Cart.{
  CartResponse, quoted, scan_expiries, matched_expiry, reject_if_lapsed, live_expiry, quote_request,
  hash_matches_at, reconcile_quote, reconcile_lock, reject_redirected_payout_of, sla_of,
  cart_params, signed_cart, cart_response, store_cart, requote, build_cart, cart_guards, cart_for,
  create_cart_mandate_for_delegation,
}
use razoragent_mesh.Delegation.Backed.{Delivered, create_cart_mandate-backed}
use razoragent_mesh.Tests.Quote.{tea_quote, tea_quoted}
use razoragent_mesh.Tests.Delegation.{world, mesh_did, paired, holding, found}
use razoragent_mesh.Tests.Flow.{order, cart_draws}

abbrev params : CartMandate
params =
    cart_params world order cart_draws tea_quote (sla_of world order cart_draws (holding paired))

abbrev signed : CartMandate
signed = record params {
  items = signed_items params.items;
  merchant_did = mesh_did;
  merchant_signature = codes "signed";
}

abbrev answered : CartResponse
answered = cart_response world order cart_draws signed (codes "digest")

tea_signed :
    signed_cart world order cart_draws (codes "did:agent:buyer") (holding paired) (fine tea_quote)
    ≡ fine (signed, codes "digest")
unfolding signed_cart quoted reconcile_quote live_expiry matched_expiry scan_expiries
    reject_if_lapsed hash_matches_at verify_quote_hash compute_quote_hash build_quote_payload
    from_hex hex_value reconcile_lock verify_lock_signature sla_of resolve_billable_weight_grams
    unit_grams verify_shipping_sla resolve_zone_code state_zone available_tiers_for_zone answer
    offer includes same_tier resolve_tier_and_sla lookup_state_from_pincode pincode_prefix_state_map
    lookup get_sku text_eq cart_params keyed signed_by_sdk from_seed manager_of format_agent_did
    is_hex is_hex_of is_hex_digit trim trim_start is_space lower lower_case zeros
    create_signed_cart_mandate has_no_items sign_payload sign_canonical_bytes drifted
    canonicalize_json_string verify_no_floats compute_mandate_hash signed_cart_fields
    unsigned_fields is_signature_key cart_fields item_values item_fields category_fields tax_fields
    quote_response signed_items with_signed_category
tea_signed = refl

cart_made :
    (create_cart_mandate_for_delegation world order cart_draws (holding paired)).outcome
    ≡ fine answered
unfolding create_cart_mandate_for_delegation cart_for build_cart cart_guards
    reject_redirected_payout_of requote quote_request store_cart
cart_made = rw (found paired refl, tea_quoted, tea_signed) refl

create_cart_mandate-backed_example :
    let loaded = load_delegation_session (codes "dlg_1") 1003 (holding paired) in
    Delivered world order cart_draws loaded.0 loaded.1
      (create_cart_mandate_for_delegation world order cart_draws (holding paired))
      answered
create_cart_mandate-backed_example =
    create_cart_mandate-backed world order cart_draws (holding paired) answered cart_made
