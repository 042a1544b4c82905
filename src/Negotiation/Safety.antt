-- ===== src/Negotiation/Safety.antt =====
-- What no gateway can make negotiate_price do: bid above the ceiling, bid too often, or agree above it.
use razoragent_mesh.Prelude.{
  ℕ, suc, ◌+◌, ◌≤◌, ◌≡◌, refl, List, [], ◌∷◌, ◌++◌, Option, none, some, true, All, All-append,
  length, length-append, arith,
}
use razoragent_mesh.Prelude.Text.{Text}
use razoragent_mesh.Negotiation.Ladder.{next_buyer_bid_bounds}
use razoragent_mesh.Negotiation.Gateway.{
  Reply, answered, refused, failed, PowChallenge, NegotiationTurnResult, NegotiationTurnInput,
  Gateway,
}
use razoragent_mesh.Negotiation.Loop.{
  NegotiatePriceRequest, NegotiationLoopState, initial_state, LoopEnd, threw_refusal, threw_failure,
  LoopResult, push_turn, agree, turn_input, ask_at, bid_at, run_negotiation_loop,
}
use razoragent_mesh.Negotiation.LoopRule.{Sent, ended, TurnShows, rounds_rule}

-- `refine` in negotiatePriceSchema.ts.
abbrev pub IsValidRequest : NegotiatePriceRequest → Type 0
IsValidRequest r = r.opening_bid_paise ≤ r.max_unit_price_paise

-- The gateway's documented convergence rule (x402Gateway/src/negotiation/convergenceChecker.py and
-- bidStateMachine.py): a turn's answer repeats the bid, and converges only if the bid meets the ask
-- that it reports.
abbrev pub IsHonest : Gateway → Type 0
IsHonest g =
    (sent : List NegotiationTurnInput) (i : NegotiationTurnInput) (r : NegotiationTurnResult)
    → g.submit_negotiation_turn sent i ≡ answered r
    → r.step_result.is_converged ≡ true
    → r.step_result.seller_ask_paise ≤ i.buyer_bid_paise

abbrev pub IsAtMost : ℕ → Option ℕ → Type 0
IsAtMost bound none = Unit
IsAtMost bound (some n) = n ≤ bound

module _ (g : Gateway) (request : NegotiatePriceRequest) (token : Text) where
  -- Between the opening bid and the ceiling.
  abbrev pub InRange : ℕ → Type 0
  InRange bid = (request.opening_bid_paise ≤ bid) × (bid ≤ request.max_unit_price_paise)

  record Playing (left turn ask bid : ℕ) (sent : Sent) (st : NegotiationLoopState) : Type 0 where
    standing : InRange bid
    in_range : All (λ i. InRange i.buyer_bid_paise) sent
    budget : length sent + left ≤ request.max_turns
    unsettled : st.agreed_unit_price_paise ≡ none

  pub record Ends (r : LoopResult) : Type 0 where
    pub in_range : All (λ i. InRange i.buyer_bid_paise) r.sent
    pub budget : length r.sent ≤ request.max_turns
    pub affordable : IsAtMost request.max_unit_price_paise r.state.agreed_unit_price_paise

  bid_at-InRange : (turn bid : ℕ) → InRange bid → InRange (bid_at g request token turn bid)
  unfolding bid_at
  bid_at-InRange turn bid h =
      ground (arith, next_buyer_bid_bounds bid request.max_unit_price_paise h.1)

  turn-shows :
      IsHonest g
      → (left turn ask bid : ℕ) (sent : Sent) (st : NegotiationLoopState) (c : PowChallenge)
        (nonce : ℕ)
      → Playing (suc left) turn ask bid sent st
      → let ask' = ask_at g request token turn ask bid in
        let bid' = bid_at g request token turn bid in
        let input = turn_input g request token turn bid' ask' c nonce in
        TurnShows g request token Playing Ends left turn ask' bid'
          (sent ++ input ∷ [])
          st
          (g.submit_negotiation_turn sent input)
  unfolding turn_input push_turn agree
  turn-shows honest left turn ask bid sent st c nonce h =
      go (g.submit_negotiation_turn sent input) refl
    where
      bid' : ℕ
      bid' = bid_at g request token turn bid

      ask' : ℕ
      ask' = ask_at g request token turn ask bid

      input : NegotiationTurnInput
      input = turn_input g request token turn bid' ask' c nonce

      now_standing : InRange bid'
      now_standing = bid_at-InRange turn bid h.standing

      all_in_range : All (λ i. InRange i.buyer_bid_paise) (sent ++ input ∷ [])
      all_in_range =
          All-append (λ i. InRange i.buyer_bid_paise) sent (input ∷ []) h.in_range
            (now_standing, tt)

      within : length (sent ++ input ∷ []) + left ≤ request.max_turns
      within = omega (arith, length-append sent (input ∷ []), h.budget)

      unsettled-IsAtMost : IsAtMost request.max_unit_price_paise st.agreed_unit_price_paise
      unsettled-IsAtMost = rw h.unsettled tt

      broken : (e : LoopEnd) → Ends (ended e st (sent ++ input ∷ []))
      broken e = record {
        in_range = all_in_range;
        budget = omega (arith, within);
        affordable = unsettled-IsAtMost;
      }

      go :
          (reply : Reply NegotiationTurnResult)
          → g.submit_negotiation_turn sent input ≡ reply
          → TurnShows g request token Playing Ends left turn ask' bid' (sent ++ input ∷ []) st reply
      go (refused why) e = broken (threw_refusal why)
      go (failed why) e = broken (threw_failure why)
      go (answered r) e = (
        λ conv. record {
          in_range = all_in_range;
          budget = omega (arith, within);
          affordable = omega (arith, honest sent input r e conv, now_standing.1);
        },
        λ more. record {
          standing = now_standing;
          in_range = all_in_range;
          budget = within;
          unsettled = h.unsettled;
        },
      )

  stop-shows :
      (left turn ask bid : ℕ) (sent : Sent) (st : NegotiationLoopState) (e : LoopEnd)
      → Playing left turn ask bid sent st
      → Ends (ended e st sent)
  stop-shows left turn ask bid sent st e h = record {
    in_range = h.in_range;
    budget = omega (arith, h.budget);
    affordable = rw h.unsettled tt;
  }

-- For a request whose opening bid is at most its ceiling, against any gateway that converges
-- only when the bid meets the ask it reports, and whatever it, the solver and the clock do
-- otherwise: every bid that is submitted lies between the opening bid and the ceiling, at most
-- `max_turns` turns are submitted, and an agreed price is at most the ceiling.
pub run_negotiation_loop-Ends :
    (g : Gateway) (request : NegotiatePriceRequest) (token : Text) (list_price : ℕ)
    → IsValidRequest request
    → IsHonest g
    → Ends g request token (run_negotiation_loop g request token list_price)
unfolding run_negotiation_loop
run_negotiation_loop-Ends g request token list_price valid honest =
    rounds_rule g request token (Playing g request token) (Ends g request token)
      (stop-shows g request token) (turn-shows g request token honest) request.max_turns 1
      list_price request.opening_bid_paise [] initial_state
      (record {
        standing = (omega arith, valid);
        in_range = tt;
        budget = omega arith;
        unsettled = refl;
      })
