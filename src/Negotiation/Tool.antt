-- ===== src/Negotiation/Tool.antt =====
-- `negotiatePrice` of packages/mcpServer/src/tools/priceNegotiator.ts: the catalog lookup, the escrow
-- session round the loop, the record of a bargain, and the response. The clock is read once for the
-- agreement and once for the automatic price.
use razoragent_mesh.Prelude.{ℕ, Option, none, some, Fallible, fine, thrown, ◌>>=◌}
use razoragent_mesh.Prelude.Text.{Text}
use razoragent_mesh.Protocol.{initial_escrow_pool_paise}
use razoragent_mesh.Pricing.Data.{Drift, DiscountStackResult}
use razoragent_mesh.Pricing.Stack.{StackInput, compute_auto_discount_stack}
use razoragent_mesh.Catalog.{CatalogSkuItem, CatalogStore, get_sku}
use razoragent_mesh.Negotiation.AgreedPrices.{
  AgreedPriceLookup, AgreedPrice, AgreedPriceRegistry, record_agreement,
}
use razoragent_mesh.Negotiation.Gateway.{Reply, answered, refused, failed, Gateway}
use razoragent_mesh.Negotiation.Loop.{
  NegotiatePriceRequest, NegotiationLoopState, LoopEnd, returned, threw_refusal, threw_failure,
  run_negotiation_loop,
}
use razoragent_mesh.Negotiation.Response.{NegotiatePriceResponse, build_negotiation_response}

pub data NegotiationError : Type 0 where
  unknown_sku : NegotiationError
  gateway_refused : Text → NegotiationError
  gateway_failed : Text → NegotiationError
  arithmetic_drift : Drift → NegotiationError

-- What a call leaves behind: its result and the registry. Of the escrow session that the `finally`
-- releases the response shows the refund.
pub record NegotiationRun : Type 0 where
  pub outcome : Fallible NegotiationError NegotiatePriceResponse
  pub registry : AgreedPriceRegistry

abbrev pub asked : NegotiatePriceRequest → AgreedPriceLookup
asked r = record { sku_id = r.sku_id; quantity = r.quantity; buyer_agent_id = r.buyer_agent_id }

-- `_releaseQuietly`
unfoldable pub release_quietly : Reply ℕ → ℕ
release_quietly (answered refund) = refund
release_quietly (refused why) = 0
release_quietly (failed why) = 0

-- `_recordAgreement`
unfoldable pub keep_agreement :
    AgreedPriceLookup
    → Option ℕ
    → Option Text
    → ℕ
    → AgreedPriceRegistry
    → Option AgreedPrice × AgreedPriceRegistry
keep_agreement l none hash now reg = (none, reg)
keep_agreement l (some price) hash now reg =
    let (stored, reg') = record_agreement l price hash now reg in (some stored, reg')

-- `_automaticUnitPricePaise`: the stack with no promo code.
unfoldable pub automatic_input : CatalogSkuItem → ℕ → ℕ → StackInput
automatic_input sku quantity now = record {
  base_unit_price_paise = sku.base_unit_price_paise;
  quantity = quantity;
  volume_tiers = sku.volume_tiers;
  promo_code = none;
  merchant_offers = sku.merchant_offers;
  promotions = sku.promotions;
  now = now;
}

unfoldable pub price_outcome : Fallible Drift DiscountStackResult → Fallible NegotiationError ℕ
price_outcome (fine r) = fine r.offered_unit_price_paise
price_outcome (thrown d) = thrown (arithmetic_drift d)

-- What follows the `finally`, when no error is on its way out.
unfoldable pub settle :
    NegotiatePriceRequest
    → CatalogSkuItem
    → ℕ
    → ℕ
    → ℕ
    → NegotiationLoopState
    → AgreedPriceRegistry
    → NegotiationRun
settle request sku now_record now_price refunded st reg =
    let kept =
      keep_agreement (asked request) st.agreed_unit_price_paise st.contract_ast_hash now_record
        reg in
    record {
      outcome =
          price_outcome
            (compute_auto_discount_stack (automatic_input sku request.quantity now_price))
          >>= λ automatic. fine (
              build_negotiation_response (record {
                request = request;
                list_unit_price_paise = sku.base_unit_price_paise;
                automatic_unit_price_paise = automatic;
                outcome = st;
                refunded_paise = refunded;
                agreement = kept.0;
              }));
      registry = kept.1;
    }

unfoldable pub after_loop :
    NegotiatePriceRequest
    → CatalogSkuItem
    → ℕ
    → ℕ
    → ℕ
    → LoopEnd
    → NegotiationLoopState
    → AgreedPriceRegistry
    → NegotiationRun
after_loop request sku now_record now_price refunded returned st reg =
    settle request sku now_record now_price refunded st reg
after_loop request sku now_record now_price refunded (threw_refusal why) st reg =
    settle request sku now_record now_price refunded (record st { declined_reason = some why }) reg
after_loop request sku now_record now_price refunded (threw_failure why) st reg = record {
  outcome = thrown (gateway_failed why);
  registry = reg;
}

module _ (g : Gateway) (request : NegotiatePriceRequest) (now_record now_price : ℕ) where
  unfoldable pub with_escrow : CatalogSkuItem → Reply Text → AgreedPriceRegistry → NegotiationRun
  with_escrow sku (refused why) reg = record {
    outcome = thrown (gateway_refused why);
    registry = reg;
  }
  with_escrow sku (failed why) reg = record {
    outcome = thrown (gateway_failed why);
    registry = reg;
  }
  with_escrow sku (answered token) reg =
      let run = run_negotiation_loop g request token sku.base_unit_price_paise in
      after_loop request sku now_record now_price
        (release_quietly (g.release_escrow_session token run.sent)) run.end run.state reg

  unfoldable pub with_sku : Option CatalogSkuItem → AgreedPriceRegistry → NegotiationRun
  with_sku none reg = record { outcome = thrown unknown_sku; registry = reg }
  with_sku (some sku) reg =
      with_escrow sku (g.create_escrow_session request.buyer_agent_id initial_escrow_pool_paise) reg

  unfoldable pub negotiate_price : CatalogStore → AgreedPriceRegistry → NegotiationRun
  unfolding with_sku with_escrow
  negotiate_price store reg = with_sku (get_sku request.sku_id store) reg
