-- ===== src/Negotiation/Gateway.antt =====
-- What priceNegotiator.ts asks of other services: the x402-INR gateway (through
-- negotiation/negotiationClient.ts), the buyer SDK's proof-of-work solver and the clock. A reply is
-- an answer, a `NegotiationRefusedError` with its reason, or any other error.
use razoragent_mesh.Prelude.{ℕ, List, Option, Bool}
use razoragent_mesh.Prelude.Text.{Text}

pub data Reply (A : Type 0) : Type 0 where
  answered : A → Reply A
  refused : Text → Reply A
  failed : Text → Reply A

pub record PowChallenge : Type 0 where
  pub challenge_token : Text
  pub pow_difficulty_zeros : ℕ

pub record NegotiationStep : Type 0 where
  pub turn_number : ℕ
  pub buyer_bid_paise : ℕ
  pub seller_ask_paise : ℕ
  pub spread_paise : ℕ
  pub is_converged : Bool
  pub cumulative_micro_fees_paise : ℕ

pub record NegotiationTurnResult : Type 0 where
  pub step_result : NegotiationStep
  pub contract_ast_hash : Option Text

pub record NegotiationTurnInput : Type 0 where
  pub sku_id : Text
  pub quantity : ℕ
  pub turn_number : ℕ
  pub buyer_bid_paise : ℕ
  pub seller_ask_paise : ℕ
  pub buyer_agent_did : Text
  pub merchant_did : Option Text
  pub challenge_token : Text
  pub solution_nonce : ℕ
  pub escrow_token : Text

-- The services. A reply may depend on the turn, and on the turns submitted before it.
pub record Gateway : Type 0 where
  pub create_escrow_session : Text → ℕ → Reply Text
  pub fetch_pow_challenge : ℕ → Reply PowChallenge
  pub solve_pow_challenge : PowChallenge → Reply ℕ
  pub submit_negotiation_turn :
      List NegotiationTurnInput → NegotiationTurnInput → Reply NegotiationTurnResult
  pub release_escrow_session : Text → List NegotiationTurnInput → Reply ℕ
  -- `Date.now() - loopStartedAtMs` at a turn.
  pub elapsed_ms : ℕ → ℕ
