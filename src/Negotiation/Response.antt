-- ===== src/Negotiation/Response.antt =====
-- packages/mcpServer/src/negotiation/negotiationResponse.ts: the response of negotiate_price. The
-- advice text is modelled by which of its five forms is chosen.
use razoragent_mesh.Prelude.{
  ℕ, ◌-◌, max, List, Option, Bool, not, ◌&&◌, ltb, leb, if◌then◌else◌, or_else, length,
}
use razoragent_mesh.Prelude.Text.{Text}
use razoragent_mesh.Catalog.{is_some}
use razoragent_mesh.Negotiation.AgreedPrices.{AgreedPrice}
use razoragent_mesh.Negotiation.Loop.{NegotiatePriceRequest, NegotiationTurn, NegotiationLoopState}

pub data Status : Type 0 where
  converged exhausted declined : Status

pub data NextStep : Type 0 where
  buy_at_list : NextStep
  raise_or_buy : NextStep
  report_no_saving : NextStep
  bind_below_fees : NextStep
  bind : NextStep

pub record NegotiatePriceResponse : Type 0 where
  pub sku_id : Text
  pub quantity : ℕ
  pub status : Status
  pub list_unit_price_paise : ℕ
  pub agreed_unit_price_paise : Option ℕ
  pub savings_vs_list_paise : ℕ
  pub savings_realised_paise : ℕ
  pub agreed_price_is_bindable : Bool
  pub turns : List NegotiationTurn
  pub turns_used : ℕ
  pub micro_fees_paid_paise : ℕ
  pub escrow_refunded_paise : ℕ
  pub contract_ast_hash : Option Text
  pub declined_reason : Option Text
  pub next_step : NextStep

pub record BuildNegotiationResponseParams : Type 0 where
  pub request : NegotiatePriceRequest
  pub list_unit_price_paise : ℕ
  pub automatic_unit_price_paise : ℕ
  pub outcome : NegotiationLoopState
  pub refunded_paise : ℕ
  pub agreement : Option AgreedPrice

-- `describeNextStep` with `_describeBindableNextStep`, on whether a reason was given, the
-- negotiation converged, and the price is bindable.
unfoldable pub describe_next_step : Bool → Bool → Bool → ℕ → ℕ → NextStep
describe_next_step refused agreed bindable saving fees =
    if refused
    then buy_at_list
    else if not agreed
    then raise_or_buy
    else if not bindable
    then report_no_saving
    else if leb saving fees
    then bind_below_fees
    else bind

unfoldable pub status_of : Bool → Bool → Status
status_of refused agreed = if refused then declined else if agreed then converged else exhausted

unfoldable pub build_negotiation_response : BuildNegotiationResponseParams → NegotiatePriceResponse
build_negotiation_response p =
    let o = p.outcome in
    let agreed = is_some o.agreed_unit_price_paise in
    let agreed_paise = or_else o.agreed_unit_price_paise 0 in
    let bindable = is_some p.agreement && ltb agreed_paise p.automatic_unit_price_paise in
    let saving : ℕ = if bindable then p.automatic_unit_price_paise - agreed_paise else 0 in
    record {
      sku_id = p.request.sku_id;
      quantity = p.request.quantity;
      status = status_of (is_some o.declined_reason) agreed;
      list_unit_price_paise = p.list_unit_price_paise;
      agreed_unit_price_paise = o.agreed_unit_price_paise;
      savings_vs_list_paise = if agreed then max 0 (p.list_unit_price_paise - agreed_paise) else 0;
      savings_realised_paise = saving;
      agreed_price_is_bindable = bindable;
      turns = o.turns;
      turns_used = length o.turns;
      micro_fees_paid_paise = o.cumulative_fees_paise;
      escrow_refunded_paise = p.refunded_paise;
      contract_ast_hash = o.contract_ast_hash;
      declined_reason = o.declined_reason;
      next_step =
          describe_next_step (is_some o.declined_reason) agreed bindable saving
            o.cumulative_fees_paise;
    }
