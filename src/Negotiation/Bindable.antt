-- ===== src/Negotiation/Bindable.antt =====
-- What a response of negotiate_price promises: the price that it calls bindable was recorded, and is
-- below the automatic price; the saving that it reports is the difference.
use razoragent_mesh.Prelude.{
  ℕ, ◌+◌, ◌<◌, ◌≡◌, refl, sym, ap, ◌∙◌, Option, none, some, true, or_else, Fallible, fine, thrown,
  >>=-eq-fine, arith,
}
use razoragent_mesh.Prelude.Text.{Text}
use razoragent_mesh.Pricing.Data.{Drift, DiscountStackResult}
use razoragent_mesh.Pricing.Stack.{compute_auto_discount_stack}
use razoragent_mesh.Catalog.{CatalogSkuItem, CatalogStore, get_sku, is_some}
use razoragent_mesh.Negotiation.AgreedPrices.{
  AgreedPriceLookup, AgreedPriceRegistry, record_agreement,
}
use razoragent_mesh.Negotiation.Gateway.{Reply, answered, refused, failed, Gateway}
use razoragent_mesh.Negotiation.Loop.{
  NegotiatePriceRequest, NegotiationLoopState, LoopEnd, returned, threw_refusal, threw_failure,
}
use razoragent_mesh.Negotiation.Response.{
  NegotiatePriceResponse, build_negotiation_response, BuildNegotiationResponseParams,
}
use razoragent_mesh.Negotiation.Tool.{
  asked, keep_agreement, automatic_input, price_outcome, settle, after_loop, with_escrow, with_sku,
  negotiate_price,
}

build-bindable :
    (p : BuildNegotiationResponseParams)
    → (build_negotiation_response p).agreed_price_is_bindable ≡ true
    → (is_some p.agreement ≡ true)
      × (or_else p.outcome.agreed_unit_price_paise 0 < p.automatic_unit_price_paise)
      × (or_else p.outcome.agreed_unit_price_paise 0
            + (build_negotiation_response p).savings_realised_paise
          ≡ p.automatic_unit_price_paise)
unfolding build_negotiation_response
build-bindable p h = ground arith

build-agreed :
    (p : BuildNegotiationResponseParams)
    → (build_negotiation_response p).agreed_unit_price_paise ≡ p.outcome.agreed_unit_price_paise
unfolding build_negotiation_response
build-agreed p = refl

or_else_lem : (o : Option ℕ) (price : ℕ) → o ≡ some price → or_else o 0 ≡ price
or_else_lem none price e = cc
or_else_lem (some n) price e = cc

keep_agreement-is_some :
    (l : AgreedPriceLookup) (o : Option ℕ) (hash : Option Text) (now : ℕ)
    (reg : AgreedPriceRegistry)
    → is_some (keep_agreement l o hash now reg).0 ≡ true
    → (price : ℕ) × (o ≡ some price)
      × ((keep_agreement l o hash now reg).1 ≡ (record_agreement l price hash now reg).1)
unfolding keep_agreement
keep_agreement-is_some l none hash now reg h = cc
keep_agreement-is_some l (some price) hash now reg h = (price, refl, refl)

price_outcome-eq-fine :
    (m : Fallible Drift DiscountStackResult) (n : ℕ)
    → price_outcome m ≡ fine n
    → (a : DiscountStackResult) × (m ≡ fine a) × (a.offered_unit_price_paise ≡ n)
unfolding price_outcome
price_outcome-eq-fine (fine a) n e = (a, refl, cc)
price_outcome-eq-fine (thrown d) n e = cc

-- A price that was recorded for the request and is below the automatic price.
pub record Bound (request : NegotiatePriceRequest) (now_record now_price : ℕ) (sku : CatalogSkuItem)
    (reg : AgreedPriceRegistry) (resp : NegotiatePriceResponse) (after : AgreedPriceRegistry)
    : Type 0 where
  pub price : ℕ
  pub hash : Option Text
  pub automatic : DiscountStackResult
  pub agreed : resp.agreed_unit_price_paise ≡ some price
  pub kept : after ≡ (record_agreement (asked request) price hash now_record reg).1
  pub listed :
      compute_auto_discount_stack (automatic_input sku request.quantity now_price) ≡ fine automatic
  pub lower : price < automatic.offered_unit_price_paise
  pub saved : price + resp.savings_realised_paise ≡ automatic.offered_unit_price_paise

settle-Bound :
    (request : NegotiatePriceRequest) (sku : CatalogSkuItem) (a b refunded : ℕ)
    (st : NegotiationLoopState) (reg : AgreedPriceRegistry) (resp : NegotiatePriceResponse)
    → (settle request sku a b refunded st reg).outcome ≡ fine resp
    → resp.agreed_price_is_bindable ≡ true
    → Bound request a b sku reg resp (settle request sku a b refunded st reg).registry
unfolding settle
settle-Bound request sku a b refunded st reg resp e bind =
    let (n, en, k) =
      >>=-eq-fine
        (price_outcome (compute_auto_discount_stack (automatic_input sku request.quantity b))) _
        e in
    let (auto, ea, same) = price_outcome-eq-fine _ n en in
    let p : BuildNegotiationResponseParams = record {
      request = request;
      list_unit_price_paise = sku.base_unit_price_paise;
      automatic_unit_price_paise = n;
      outcome = st;
      refunded_paise = refunded;
      agreement =
          (keep_agreement (asked request) st.agreed_unit_price_paise st.contract_ast_hash a reg).0;
    } in
    let built : build_negotiation_response p ≡ resp = cc in
    let (present, low, saved) =
      build-bindable p (ap (λ x. x.agreed_price_is_bindable) built ∙ bind) in
    let (price, eo, kept) =
      keep_agreement-is_some (asked request) st.agreed_unit_price_paise st.contract_ast_hash a reg
        present in
    let answered : resp.agreed_unit_price_paise ≡ st.agreed_unit_price_paise =
      sym (ap (λ x. x.agreed_unit_price_paise) built) ∙ build-agreed p in
    let is_price = or_else_lem st.agreed_unit_price_paise price eo in
    let saving = ap (λ x. x.savings_realised_paise) built in
    record {
      price = price;
      hash = st.contract_ast_hash;
      automatic = auto;
      agreed = cc;
      kept = kept;
      listed = ea;
      lower = omega (arith, low, is_price, same);
      saved = omega (arith, saved, saving, is_price, same);
    }

after_loop-Bound :
    (request : NegotiatePriceRequest) (sku : CatalogSkuItem) (a b refunded : ℕ) (end : LoopEnd)
    (st : NegotiationLoopState) (reg : AgreedPriceRegistry) (resp : NegotiatePriceResponse)
    → (after_loop request sku a b refunded end st reg).outcome ≡ fine resp
    → resp.agreed_price_is_bindable ≡ true
    → Bound request a b sku reg resp (after_loop request sku a b refunded end st reg).registry
unfolding after_loop
after_loop-Bound request sku a b refunded returned st reg resp e bind =
    settle-Bound request sku a b refunded st reg resp e bind
after_loop-Bound request sku a b refunded (threw_refusal why) st reg resp e bind =
    settle-Bound request sku a b refunded (record st { declined_reason = some why }) reg resp e bind
after_loop-Bound request sku a b refunded (threw_failure why) st reg resp e bind = cc

-- A response that calls its price bindable: the price is below what the automatic discounts give at
-- the same clock, the saving that it reports is the difference, and the registry that the call
-- leaves holds the price for exactly this purchase.
pub negotiate_price-Bound :
    (g : Gateway) (request : NegotiatePriceRequest) (a b : ℕ) (store : CatalogStore)
    (reg : AgreedPriceRegistry) (resp : NegotiatePriceResponse)
    → (negotiate_price g request a b store reg).outcome ≡ fine resp
    → resp.agreed_price_is_bindable ≡ true
    → (sku : CatalogSkuItem) × (get_sku request.sku_id store ≡ some sku)
      × Bound request a b sku reg resp (negotiate_price g request a b store reg).registry
unfolding negotiate_price
negotiate_price-Bound g request a b store reg resp e bind = go (get_sku request.sku_id store) e
  where
    paid :
        (sku : CatalogSkuItem) (reply : Reply Text)
        → (with_escrow g request a b sku reply reg).outcome ≡ fine resp
        → Bound request a b sku reg resp (with_escrow g request a b sku reply reg).registry
    paid sku (refused why) h = cc
    paid sku (failed why) h = cc
    paid sku (answered token) h = after_loop-Bound request sku a b _ _ _ reg resp h bind

    go :
        (o : Option CatalogSkuItem)
        → (with_sku g request a b o reg).outcome ≡ fine resp
        → (sku : CatalogSkuItem) × (o ≡ some sku)
          × Bound request a b sku reg resp (with_sku g request a b o reg).registry
    go none h = cc
    go (some sku) h = (sku, refl, paid sku _ h)
