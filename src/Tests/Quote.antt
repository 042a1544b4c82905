-- ===== src/Tests/Quote.antt =====
-- Quotes for the example item, at the list price, on sale, and at a negotiated price.
use razoragent_mesh.Prelude.{◌≡◌, ◌≢◌, All, refl, [], ◌∷◌, ◌++◌, none, some, fine, arith}
use razoragent_mesh.Prelude.Text.{Text, codes, text_eq}
use razoragent_mesh.Prelude.Dict.{lookup}
use razoragent_mesh.Protocol.{pincode_prefix_state_map}
use razoragent_mesh.Pricing.Data.{DiscountStackResult, UpcomingPromotion}
use razoragent_mesh.Pricing.Volume.{find_matching_volume_tier, find_tier, sort_tiers, insert_tier}
use razoragent_mesh.Pricing.Promotions.{
  evaluate_scheduled_promotions, evaluate_single_scheduled_promotion,
  calculate_promotion_unit_price, classify,
}
use razoragent_mesh.Pricing.Stack.{
  compute_auto_discount_stack, run_stack, apply_scheduled_promotion_step,
  apply_volume_tier_discount_step, apply_campaign_discount_step, apply_payment_rail_discount_step,
  apply_promo_code_discount_step, take_off, take_off_rate, tier_step, promotion_step, promotion_off,
  deepest, resolve_sku_offers,
}
use razoragent_mesh.Catalog.{CatalogSkuItem, get_sku, get_required_sku}
use razoragent_mesh.Inventory.IssuedQuotes.{issued, verify}
use razoragent_mesh.Inventory.QuoteLaws.{asking}
use razoragent_mesh.Negotiation.AgreedPrices.{lookup_agreement, live}
use razoragent_mesh.Negotiation.Tool.{negotiate_price}
use razoragent_mesh.Crypto.{Hmac}
use razoragent_mesh.Quote.Price.{
  SkuQuoteRequest, Clock, found_sku, drifted, lookup_state_from_pincode, stack_input, apply_found,
  ordinary, apply_negotiated_agreement, priced_at,
}
use razoragent_mesh.Quote.Package.{
  SkuQuoteResponse, quote_response, resolve_quote_expiry, packaged, sign_and_package_quote,
  resolve_upcoming_promotions, execute_sku_quote, price_item,
}
use razoragent_mesh.Quote.Laws.{shown, execute_sku_quote-verify}
use razoragent_mesh.Quote.Reconciles.{AddsUp, execute_sku_quote-AddsUp}
use razoragent_mesh.Quote.Charged.{quoting, price_item-eq, negotiated_price_is_charged}
use razoragent_mesh.Quote.Faults.{IsWellFormed, execute_sku_quote-AreWellFormed}
use razoragent_mesh.Tests.Data.{tea, shop, stocked, tea_item, broken_item, bargain, fair}
use razoragent_mesh.Tests.Negotiation.{told, bargain-told}

-- A stand-in for HMAC: the key before the message.
abbrev pub tag : Hmac
tag key message = key ++ message

abbrev pub secret : Text
secret = codes "k"

abbrev pub pune : Text
pune = codes "411001"

abbrev pub one : SkuQuoteRequest
one = quoting bargain pune

abbrev pub before : Clock
before = record { pricing = 500; agreement = 500; signing = 500 }

abbrev pub list_price : DiscountStackResult
list_price = record {
  offered_unit_price_paise = 100000;
  applied_discounts = [];
  total_savings_paise = 0;
}

listed :
    (item : CatalogSkuItem)
    → get_sku tea (stocked item) ≡ some (record item { available_stock = 10 })
unfolding get_sku lookup text_eq
listed item = refl

in_pune : lookup_state_from_pincode pune ≡ some (codes "MH")
unfolding lookup_state_from_pincode lookup text_eq pincode_prefix_state_map
in_pune = refl

at_list : compute_auto_discount_stack (stack_input tea_item one 500) ≡ fine list_price
unfolding stack_input compute_auto_discount_stack run_stack apply_scheduled_promotion_step
    apply_volume_tier_discount_step apply_campaign_discount_step apply_payment_rail_discount_step
    apply_promo_code_discount_step find_matching_volume_tier find_tier sort_tiers insert_tier
    take_off take_off_rate tier_step promotion_step promotion_off deepest resolve_sku_offers
    evaluate_scheduled_promotions evaluate_single_scheduled_promotion calculate_promotion_unit_price
    classify
at_list = refl

abbrev pub to_come : UpcomingPromotion
to_come = record {
  campaign_id = codes "NIGHT";
  name = codes "Night sale";
  starts_at_unix = 1000;
  ends_at_unix = 2000;
  expected_unit_price_paise = 80000;
  expected_savings_paise = 20000;
  limited_stock_allocated = none;
}

sales_to_come : resolve_upcoming_promotions tea_item 500 ≡ fine (to_come ∷ [])
unfolding resolve_upcoming_promotions drifted evaluate_scheduled_promotions
    evaluate_single_scheduled_promotion calculate_promotion_unit_price classify
sales_to_come = refl

abbrev pub tea_quote : SkuQuoteResponse
tea_quote =
    quote_response tag secret one tea_item
      (priced_at tea_item one (codes "MH")
        (apply_negotiated_agreement tea_item one list_price [] 500))
      500 (to_come ∷ [])

pub tea_quoted : (execute_sku_quote tag secret one shop [] before []).outcome ≡ fine tea_quote
unfolding execute_sku_quote packaged sign_and_package_quote price_item
tea_quoted =
    rw
      (
        price_item-eq one shop [] before tea_item (codes "MH") list_price (listed tea_item) in_pune
            at_list,
        sales_to_come,
      )
      refl

execute_sku_quote-verify_example :
    verify
      (asking (shown one tea_quote))
      562
      (execute_sku_quote tag secret one shop [] before []).quotes
    ≡ issued (shown one tea_quote)
unfolding quote_response resolve_quote_expiry priced_at apply_negotiated_agreement apply_found
    ordinary lookup_agreement live lookup
execute_sku_quote-verify_example =
    execute_sku_quote-verify tag secret one shop [] before [] tea_quote 562 tea_quoted (omega arith)

execute_sku_quote-AddsUp_example :
    AddsUp tea_quote.base_unit_price_paise 1 tea_quote.offered_unit_price_paise
      tea_quote.applied_discounts tea_quote.total_savings_paise
unfolding found_sku get_required_sku get_sku lookup text_eq
execute_sku_quote-AddsUp_example =
    execute_sku_quote-AddsUp tag secret one shop [] before [] tea_quote tea_item tea_quoted refl
      (omega arith, (omega arith, (omega arith, tt))) (tt, tt) (omega arith)

negotiated_price_is_charged_example :
    (quote : SkuQuoteResponse) × ((execute_sku_quote tag secret
        (quoting bargain pune)
        shop
        (negotiate_price fair bargain 500 500 shop []).registry
        (record { pricing = 500; agreement = 600; signing = 601 })
        []).outcome
      ≡ fine quote)
    × (told.agreed_unit_price_paise ≡ some quote.offered_unit_price_paise)
unfolding resolve_upcoming_promotions drifted evaluate_scheduled_promotions
    evaluate_single_scheduled_promotion calculate_promotion_unit_price classify
negotiated_price_is_charged_example =
    negotiated_price_is_charged fair bargain 500 500 shop [] told tea_item tag secret pune
      (codes "MH") 600 601 [] (to_come ∷ []) bargain-told refl (listed tea_item) refl (omega arith)
      in_pune refl

execute_sku_quote-AreWellFormed_example : All (IsWellFormed 100000) tea_item.promotions
execute_sku_quote-AreWellFormed_example =
    execute_sku_quote-AreWellFormed tag secret one shop [] before [] tea_quote tea_item tea_quoted
      (listed tea_item)

-- The same item with its sale's window inverted gets no quote.
broken_item-unquoted :
    (resp : SkuQuoteResponse)
    → (execute_sku_quote tag secret one (stocked broken_item) [] before []).outcome ≢ fine resp
broken_item-unquoted resp e =
    let ((early, fixed), rest) =
      execute_sku_quote-AreWellFormed tag secret one (stocked broken_item) [] before [] resp
        broken_item e (listed broken_item) in
    omega (arith, early)
