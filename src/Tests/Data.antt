-- ===== src/Tests/Data.antt =====
-- The shop that the examples share: one item with tiers, a sale and offers, and a merchant who
-- accepts a bid that meets the ask.
use razoragent_mesh.Prelude.{◌-◌, List, [], ◌∷◌, none, some, leb}
use razoragent_mesh.Prelude.Text.{Text, codes}
use razoragent_mesh.Pricing.Data.{VolumeTier, ScheduledPromotion, MerchantAuthoredOffers}
use razoragent_mesh.Catalog.{CatalogSkuItem, CatalogStore}
use razoragent_mesh.Negotiation.Gateway.{Gateway, answered}
use razoragent_mesh.Negotiation.Loop.{NegotiatePriceRequest}

abbrev pub tea : Text
tea = codes "SKU-TEA"

abbrev pub buyer : Text
buyer = codes "did:agent:buyer"

abbrev pub sale : ScheduledPromotion
sale = record {
  campaign_id = codes "NIGHT";
  name = codes "Night sale";
  starts_at_unix = 1000;
  ends_at_unix = 2000;
  discount_bps = some 2000;
  discount_paise = none;
  fixed_price_paise = none;
  limited_stock_allocated = none;
}

-- Its window ends before it starts.
abbrev pub inverted_sale : ScheduledPromotion
inverted_sale = record sale { ends_at_unix = 500 }

abbrev pub tiers : List VolumeTier
tiers =
    record { min_quantity = 2; discount_bps = 500 }
    ∷ record { min_quantity = 10; discount_bps = 1000 }
    ∷ record { min_quantity = 5; discount_bps = 700 }
    ∷ []

abbrev pub no_offers : MerchantAuthoredOffers
no_offers = record { campaign = none; payment_rail_cashback_paise = none; promo_codes = none }

abbrev pub tea_item : CatalogSkuItem
tea_item = record {
  sku_id = tea;
  name = codes "Assam tea";
  category = codes "Grocery";
  description = codes "Loose leaf";
  hsn_code = codes "0902";
  gst_rate_percent = 5;
  base_unit_price_paise = 100000;
  available_stock = 10;
  volume_tiers = tiers;
  promotions = sale ∷ [];
  merchant_offers = some no_offers;
  brand = none;
  weight_grams = none;
}

abbrev pub broken_item : CatalogSkuItem
broken_item = record tea_item { promotions = inverted_sale ∷ [] }

abbrev pub stocked : CatalogSkuItem → CatalogStore
stocked item = record { items_map = (tea, item) ∷ []; stock_map = (tea, 10) ∷ [] }

abbrev pub shop : CatalogStore
shop = stocked tea_item

abbrev pub bargain : NegotiatePriceRequest
bargain = record {
  sku_id = tea;
  quantity = 1;
  buyer_agent_id = buyer;
  opening_bid_paise = 99600;
  max_unit_price_paise = 99700;
  merchant_did = none;
  max_turns = 5;
}

-- Echoes the turn, and accepts when the bid meets the ask.
abbrev pub fair : Gateway
fair = record {
  create_escrow_session = λ agent pool. answered (codes "escrow");
  fetch_pow_challenge =
      λ turn. answered (record { challenge_token = codes "puzzle"; pow_difficulty_zeros = 2 });
  solve_pow_challenge = λ c. answered 7;
  submit_negotiation_turn = λ sent i. answered (record {
    step_result = record {
      turn_number = i.turn_number;
      buyer_bid_paise = i.buyer_bid_paise;
      seller_ask_paise = i.seller_ask_paise;
      spread_paise = i.seller_ask_paise - i.buyer_bid_paise;
      is_converged = leb i.seller_ask_paise i.buyer_bid_paise;
      cumulative_micro_fees_paise = 5;
    };
    contract_ast_hash = some (codes "contract");
  });
  release_escrow_session = λ token sent. answered 4990;
  elapsed_ms = λ turn. 0;
}
