-- ===== src/Tests/Negotiation.antt =====
-- A bargain with a fair merchant, and the agreed prices that it leaves.
use razoragent_mesh.Prelude.{ℕ, ◌≡◌, ◌≢◌, refl, [], ◌∷◌, none, some, true, false, fine, arith}
use razoragent_mesh.Prelude.Text.{codes, text_eq, Lacks-of_lacks}
use razoragent_mesh.Prelude.Dict.{lookup}
use razoragent_mesh.Pricing.Volume.{find_matching_volume_tier, find_tier, sort_tiers, insert_tier}
use razoragent_mesh.Pricing.Promotions.{
  evaluate_scheduled_promotions, evaluate_single_scheduled_promotion,
  calculate_promotion_unit_price, classify,
}
use razoragent_mesh.Pricing.Stack.{
  compute_auto_discount_stack, run_stack, apply_scheduled_promotion_step,
  apply_volume_tier_discount_step, apply_campaign_discount_step, apply_payment_rail_discount_step,
  apply_promo_code_discount_step, take_off, take_off_rate, tier_step, promotion_step, promotion_off,
  deepest, resolve_sku_offers,
}
use razoragent_mesh.Catalog.{CatalogSkuItem, get_sku}
use razoragent_mesh.Negotiation.AgreedPrices.{AgreedPriceLookup, record_agreement}
use razoragent_mesh.Negotiation.PriceLaws.{HasPlainIds}
use razoragent_mesh.Negotiation.Ladder.{
  concession_step_paise, next_seller_ask_paise, next_buyer_bid_paise,
}
use razoragent_mesh.Negotiation.Loop.{
  push_turn, agree, after_turn, turn_input, after_solution, after_challenge, ask_at, bid_at, rounds,
  run_negotiation_loop,
}
use razoragent_mesh.Negotiation.Safety.{IsHonest, Ends, run_negotiation_loop-Ends}
use razoragent_mesh.Negotiation.Response.{
  NegotiatePriceResponse, Status, NextStep, build_negotiation_response, describe_next_step,
  status_of,
}
use razoragent_mesh.Negotiation.Tool.{
  release_quietly, keep_agreement, automatic_input, price_outcome, settle, after_loop, with_escrow,
  with_sku, negotiate_price,
}
use razoragent_mesh.Negotiation.ToolLaws.{Bargained, negotiate_price-Bargained}
use razoragent_mesh.Negotiation.Bindable.{Bound, negotiate_price-Bound}
use razoragent_mesh.Tests.Data.{tea, buyer, shop, bargain, fair}

fair-IsHonest : IsHonest fair
fair-IsHonest sent i r e h = ground arith

run_negotiation_loop-Ends_example :
    Ends fair bargain (codes "escrow") (run_negotiation_loop fair bargain (codes "escrow") 100000)
run_negotiation_loop-Ends_example =
    run_negotiation_loop-Ends fair bargain (codes "escrow") 100000 (omega arith) fair-IsHonest

negotiate_price-Bargained_example :
    Bargained bargain 500 [] (negotiate_price fair bargain 500 500 shop []).registry
negotiate_price-Bargained_example =
    negotiate_price-Bargained fair bargain 500 500 shop [] (omega arith) fair-IsHonest

-- Before the night sale opens the tea costs its list price.
abbrev pub told : NegotiatePriceResponse
told = record {
  sku_id = tea;
  quantity = 1;
  status = Status.converged;
  list_unit_price_paise = 100000;
  agreed_unit_price_paise = some 99600;
  savings_vs_list_paise = 400;
  savings_realised_paise = 400;
  agreed_price_is_bindable = true;
  turns =
      record {
        turn_number = 1;
        buyer_bid_paise = 99600;
        seller_ask_paise = 100000;
        spread_paise = 400;
        converged = false;
        micro_fee_paise = 50;
        cumulative_micro_fees_paise = 5;
      }
      ∷ record {
        turn_number = 2;
        buyer_bid_paise = 99700;
        seller_ask_paise = 99600;
        spread_paise = 0;
        converged = true;
        micro_fee_paise = 50;
        cumulative_micro_fees_paise = 5;
      }
      ∷ [];
  turns_used = 2;
  micro_fees_paid_paise = 5;
  escrow_refunded_paise = 4990;
  contract_ast_hash = some (codes "contract");
  declined_reason = none;
  next_step = NextStep.bind;
}

pub bargain-told : (negotiate_price fair bargain 500 500 shop []).outcome ≡ fine told
unfolding negotiate_price with_sku with_escrow after_loop settle keep_agreement price_outcome
    automatic_input release_quietly build_negotiation_response describe_next_step status_of
    run_negotiation_loop rounds after_challenge after_solution after_turn push_turn agree ask_at
    bid_at turn_input concession_step_paise next_seller_ask_paise next_buyer_bid_paise
    record_agreement compute_auto_discount_stack run_stack apply_scheduled_promotion_step
    apply_volume_tier_discount_step apply_campaign_discount_step apply_payment_rail_discount_step
    apply_promo_code_discount_step find_matching_volume_tier find_tier sort_tiers insert_tier
    take_off take_off_rate tier_step promotion_step promotion_off deepest resolve_sku_offers
    evaluate_scheduled_promotions evaluate_single_scheduled_promotion calculate_promotion_unit_price
    classify get_sku lookup text_eq
bargain-told = refl

negotiate_price-Bound_example :
    (sku : CatalogSkuItem) × (get_sku tea shop ≡ some sku)
    × Bound bargain 500 500 sku [] told (negotiate_price fair bargain 500 500 shop []).registry
negotiate_price-Bound_example =
    negotiate_price-Bound fair bargain 500 500 shop [] told bargain-told refl

abbrev one_tea : AgreedPriceLookup
one_tea = record { sku_id = tea; quantity = 1; buyer_agent_id = buyer }

abbrev two_tea : AgreedPriceLookup
two_tea = record { sku_id = tea; quantity = 2; buyer_agent_id = buyer }

tea-HasPlainIds :
    (n : ℕ) → HasPlainIds (record { sku_id = tea; quantity = n; buyer_agent_id = buyer })
tea-HasPlainIds n = (Lacks-of_lacks b'|' buyer refl, Lacks-of_lacks b'|' tea refl)

two-ne-one : two_tea ≢ one_tea
two-ne-one e = cc
