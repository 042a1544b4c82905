-- ===== src/Negotiation/Loop.antt =====
-- The turns of negotiate_price: `_runNegotiationLoop` and `negotiatePrice` of
-- packages/mcpServer/src/tools/priceNegotiator.ts. The request has passed negotiatePriceSchema.ts.
-- Telemetry, which is fire-and-forget, is left out.
use razoragent_mesh.Prelude.{
  ℕ, zero, suc, ◌+◌, List, [], ◌∷◌, ◌++◌, Option, none, some, Bool, true, false, ltb, if◌then◌else◌,
}
use razoragent_mesh.Prelude.Text.{Text}
use razoragent_mesh.Protocol.{micro_fee_per_turn_paise, pow_solve_budget_ms}
use razoragent_mesh.Negotiation.Ladder.{next_seller_ask_paise, next_buyer_bid_paise}
use razoragent_mesh.Negotiation.Gateway.{
  Reply, answered, refused, failed, PowChallenge, NegotiationStep, NegotiationTurnResult,
  NegotiationTurnInput, Gateway,
}

pub record NegotiatePriceRequest : Type 0 where
  pub sku_id : Text
  pub quantity : ℕ
  pub buyer_agent_id : Text
  pub opening_bid_paise : ℕ
  pub max_unit_price_paise : ℕ
  pub merchant_did : Option Text
  pub max_turns : ℕ

pub record NegotiationTurn : Type 0 where
  pub turn_number : ℕ
  pub buyer_bid_paise : ℕ
  pub seller_ask_paise : ℕ
  pub spread_paise : ℕ
  pub converged : Bool
  pub micro_fee_paise : ℕ
  pub cumulative_micro_fees_paise : ℕ

pub record NegotiationLoopState : Type 0 where
  pub turns : List NegotiationTurn
  pub agreed_unit_price_paise : Option ℕ
  pub contract_ast_hash : Option Text
  pub cumulative_fees_paise : ℕ
  pub declined_reason : Option Text

abbrev pub initial_state : NegotiationLoopState
initial_state = record {
  turns = [];
  agreed_unit_price_paise = none;
  contract_ast_hash = none;
  cumulative_fees_paise = 0;
  declined_reason = none;
}

-- How the loop ended, the state that it left, and the turns that it submitted.
pub data LoopEnd : Type 0 where
  returned : LoopEnd
  threw_refusal : Text → LoopEnd
  threw_failure : Text → LoopEnd

pub record LoopResult : Type 0 where
  pub end : LoopEnd
  pub state : NegotiationLoopState
  pub sent : List NegotiationTurnInput

-- The gateway's figures for a turn, as they are pushed.
abbrev pub turn_of : NegotiationStep → NegotiationTurn
turn_of s = record {
  turn_number = s.turn_number;
  buyer_bid_paise = s.buyer_bid_paise;
  seller_ask_paise = s.seller_ask_paise;
  spread_paise = s.spread_paise;
  converged = s.is_converged;
  micro_fee_paise = micro_fee_per_turn_paise;
  cumulative_micro_fees_paise = s.cumulative_micro_fees_paise;
}

unfoldable pub push_turn : NegotiationStep → NegotiationLoopState → NegotiationLoopState
push_turn s st = record st {
  cumulative_fees_paise = s.cumulative_micro_fees_paise;
  turns = st.turns ++ turn_of s ∷ [];
}

unfoldable pub agree : NegotiationTurnResult → NegotiationLoopState → NegotiationLoopState
agree r st = record st {
  agreed_unit_price_paise = some r.step_result.seller_ask_paise;
  contract_ast_hash = r.contract_ast_hash;
}

-- What follows the answer to a turn; `more` is the rest of the loop.
unfoldable pub after_turn :
    NegotiationLoopState
    → List NegotiationTurnInput
    → Reply NegotiationTurnResult
    → (NegotiationLoopState → LoopResult)
    → LoopResult
after_turn st sent (refused why) more = record { end = threw_refusal why; state = st; sent = sent }
after_turn st sent (failed why) more = record { end = threw_failure why; state = st; sent = sent }
after_turn st sent (answered r) more =
    let st' = push_turn r.step_result st in
    elim r.step_result.is_converged [
      | true ↦ record { end = returned; state = agree r st'; sent = sent }
      | false ↦ more st'
    ]

module _ (g : Gateway) (request : NegotiatePriceRequest) (escrow_token : Text) where
  unfoldable pub turn_input : ℕ → ℕ → ℕ → PowChallenge → ℕ → NegotiationTurnInput
  turn_input turn_number bid ask challenge nonce = record {
    sku_id = request.sku_id;
    quantity = request.quantity;
    turn_number = turn_number;
    buyer_bid_paise = bid;
    seller_ask_paise = ask;
    buyer_agent_did = request.buyer_agent_id;
    merchant_did = request.merchant_did;
    challenge_token = challenge.challenge_token;
    solution_nonce = nonce;
    escrow_token = escrow_token;
  }

  -- The submission, once the proof of work is solved; `more` goes on from the turns sent so far.
  unfoldable pub after_solution :
      ℕ
      → ℕ
      → ℕ
      → NegotiationLoopState
      → List NegotiationTurnInput
      → PowChallenge
      → Reply ℕ
      → (List NegotiationTurnInput → NegotiationLoopState → LoopResult)
      → LoopResult
  after_solution turn_number bid ask st sent challenge (refused why) more = record {
    end = threw_refusal why;
    state = st;
    sent = sent;
  }
  after_solution turn_number bid ask st sent challenge (failed why) more = record {
    end = threw_failure why;
    state = st;
    sent = sent;
  }
  after_solution turn_number bid ask st sent challenge (answered nonce) more =
      let input = turn_input turn_number bid ask challenge nonce in
      let sent' = sent ++ input ∷ [] in
      after_turn st sent' (g.submit_negotiation_turn sent input) (more sent')

  unfoldable pub after_challenge :
      ℕ
      → ℕ
      → ℕ
      → NegotiationLoopState
      → List NegotiationTurnInput
      → Reply PowChallenge
      → (List NegotiationTurnInput → NegotiationLoopState → LoopResult)
      → LoopResult
  after_challenge turn_number bid ask st sent (refused why) more = record {
    end = threw_refusal why;
    state = st;
    sent = sent;
  }
  after_challenge turn_number bid ask st sent (failed why) more = record {
    end = threw_failure why;
    state = st;
    sent = sent;
  }
  after_challenge turn_number bid ask st sent (answered challenge) more =
      after_solution turn_number bid ask st sent challenge (g.solve_pow_challenge challenge) more

  -- The offers of a turn: the opening ones at turn 1, a concession by each side after it.
  unfoldable pub ask_at : ℕ → ℕ → ℕ → ℕ
  ask_at turn_number ask bid = if ltb 1 turn_number then next_seller_ask_paise ask bid else ask

  unfoldable pub bid_at : ℕ → ℕ → ℕ
  bid_at turn_number bid =
      if ltb 1 turn_number then next_buyer_bid_paise bid request.max_unit_price_paise else bid

  -- The loop from `turn_number` on, with so many rounds left; `ask` and `bid` are the standing offers.
  unfoldable pub rounds :
      ℕ → ℕ → ℕ → ℕ → List NegotiationTurnInput → NegotiationLoopState → LoopResult
  unfolding after_challenge after_solution turn_input
  rounds zero turn_number ask bid sent st = record { end = returned; state = st; sent = sent }
  rounds (suc left) turn_number ask bid sent st =
      let ask' = ask_at turn_number ask bid in
      let bid' = bid_at turn_number bid in
      let played =
        after_challenge turn_number bid' ask' st sent (g.fetch_pow_challenge turn_number)
          (rounds left (turn_number + 1) ask' bid') in
      if ltb pow_solve_budget_ms (g.elapsed_ms turn_number)
      then record { end = returned; state = st; sent = sent }
      else played

  unfoldable pub run_negotiation_loop : ℕ → LoopResult
  run_negotiation_loop list_unit_price =
      rounds request.max_turns 1 list_unit_price request.opening_bid_paise [] initial_state
