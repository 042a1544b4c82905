-- ===== src/Negotiation/LoopRule.antt =====
-- One induction for the turns of a negotiation: an invariant of the standing offers, the turns sent
-- and the state, and what it gives of the way the loop ends.
use razoragent_mesh.Prelude.{
  ℕ, zero, suc, ◌+◌, ◌≡◌, List, [], ◌∷◌, ◌++◌, true, false, inl, inr, ltb, Bool-cases,
}
use razoragent_mesh.Prelude.Text.{Text}
use razoragent_mesh.Negotiation.Gateway.{
  Reply, answered, refused, failed, PowChallenge, NegotiationTurnResult, NegotiationTurnInput,
  Gateway,
}
use razoragent_mesh.Negotiation.Loop.{
  NegotiatePriceRequest, NegotiationLoopState, LoopEnd, returned, threw_refusal, threw_failure,
  LoopResult, push_turn, agree, after_turn, turn_input, after_solution, after_challenge, ask_at,
  bid_at, rounds,
}

abbrev pub Sent : Type 0
Sent = List NegotiationTurnInput

abbrev pub ended : LoopEnd → NegotiationLoopState → Sent → LoopResult
ended e st sent = record { end = e; state = st; sent = sent }

module _ (g : Gateway) (request : NegotiatePriceRequest) (token : Text)
    (I : ℕ → ℕ → ℕ → ℕ → Sent → NegotiationLoopState → Type 0) (Q : LoopResult → Type 0) where
  -- What a turn has to show, by the gateway's reply to it, with so many rounds left after it.
  abbrev pub TurnShows :
      ℕ → ℕ → ℕ → ℕ → Sent → NegotiationLoopState → Reply NegotiationTurnResult → Type 0
  TurnShows left turn ask bid sent st (refused why) = Q (ended (threw_refusal why) st sent)
  TurnShows left turn ask bid sent st (failed why) = Q (ended (threw_failure why) st sent)
  TurnShows left turn ask bid sent st (answered r) =
      (r.step_result.is_converged ≡ true
        → Q (ended returned (agree r (push_turn r.step_result st)) sent))
      × (r.step_result.is_converged ≡ false
          → I left (turn + 1) ask bid sent (push_turn r.step_result st))

  after_turn_rule :
      (left turn ask bid : ℕ) (st : NegotiationLoopState) (sent : Sent)
      (reply : Reply NegotiationTurnResult) (more : NegotiationLoopState → LoopResult)
      → TurnShows left turn ask bid sent st reply
      → ((st' : NegotiationLoopState) → I left (turn + 1) ask bid sent st' → Q (more st'))
      → Q (after_turn st sent reply more)
  unfolding after_turn
  after_turn_rule left turn ask bid st sent (refused why) more h k = h
  after_turn_rule left turn ask bid st sent (failed why) more h k = h
  after_turn_rule left turn ask bid st sent (answered r) more h k =
      elim (Bool-cases r.step_result.is_converged) [
        | inl e ↦ rw e (h.0 e)
        | inr e ↦ rw e (k (push_turn r.step_result st) (h.1 e))
      ]

  module _
      (stop : (left turn ask bid : ℕ) (sent : Sent) (st : NegotiationLoopState) (e : LoopEnd)
        → I left turn ask bid sent st
        → Q (ended e st sent))
      (turned : (left turn ask bid : ℕ) (sent : Sent) (st : NegotiationLoopState) (c : PowChallenge)
          (nonce : ℕ)
        → I (suc left) turn ask bid sent st
        → let ask' = ask_at g request token turn ask bid in
          let bid' = bid_at g request token turn bid in
          let input = turn_input g request token turn bid' ask' c nonce in
          TurnShows left turn ask' bid'
            (sent ++ input ∷ [])
            st
            (g.submit_negotiation_turn sent input)) where
    pub rounds_rule :
        (left turn ask bid : ℕ) (sent : Sent) (st : NegotiationLoopState)
        → I left turn ask bid sent st
        → Q (rounds g request token left turn ask bid sent st)
    unfolding rounds
    rounds_rule zero turn ask bid sent st h = stop zero turn ask bid sent st returned h
    rounds_rule (suc left) turn ask bid sent st h =
        elim (Bool-cases (ltb 15000 (g.elapsed_ms turn))) [
          | inl e ↦ rw e (stop (suc left) turn ask bid sent st returned h)
          | inr e ↦ rw e (challenged (g.fetch_pow_challenge turn) (rounds_rule left))
        ]
      where
        ask' : ℕ
        ask' = ask_at g request token turn ask bid

        bid' : ℕ
        bid' = bid_at g request token turn bid

        solved :
            (c : PowChallenge) (reply : Reply ℕ)
            → ((turn₁ ask₁ bid₁ : ℕ) (sent₁ : Sent) (st₁ : NegotiationLoopState)
                → I left turn₁ ask₁ bid₁ sent₁ st₁
                → Q (rounds g request token left turn₁ ask₁ bid₁ sent₁ st₁))
            → Q (
                after_solution g request token turn bid' ask' st sent c reply
                  (rounds g request token left (turn + 1) ask' bid'))
        solved c (refused why) ih = stop (suc left) turn ask bid sent st (threw_refusal why) h
        solved c (failed why) ih = stop (suc left) turn ask bid sent st (threw_failure why) h
        solved c (answered nonce) ih =
            let sent' = sent ++ turn_input g request token turn bid' ask' c nonce ∷ [] in
            after_turn_rule left turn ask' bid' st sent' _ _
              (turned left turn ask bid sent st c nonce h)
              (λ st' k. ih (turn + 1) ask' bid' sent' st' k)

        challenged :
            (reply : Reply PowChallenge)
            → ((turn₁ ask₁ bid₁ : ℕ) (sent₁ : Sent) (st₁ : NegotiationLoopState)
                → I left turn₁ ask₁ bid₁ sent₁ st₁
                → Q (rounds g request token left turn₁ ask₁ bid₁ sent₁ st₁))
            → Q (
                after_challenge g request token turn bid' ask' st sent reply
                  (rounds g request token left (turn + 1) ask' bid'))
        challenged (refused why) ih = stop (suc left) turn ask bid sent st (threw_refusal why) h
        challenged (failed why) ih = stop (suc left) turn ask bid sent st (threw_failure why) h
        challenged (answered c) ih = solved c (g.solve_pow_challenge c) ih
