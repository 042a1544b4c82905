-- ===== src/Negotiation/Ladder.antt =====
-- The bid and ask ladder of packages/mcpServer/src/tools/priceNegotiator.ts. Offers are whole paise;
-- where the code's difference may fall below zero, the truncated one gives the same result.
use razoragent_mesh.Prelude.{ℕ, ◌+◌, ◌-◌, ◌*◌, ◌/◌, ◌≤◌, min, max, leb, if◌then◌else◌, arith}
use razoragent_mesh.Protocol.{
  bps_divisor, min_concession_paise, seller_concession_rate_bps, buyer_concession_rate_bps,
}

-- `openPaise` may be negative in the code; there, as at 0, the step is 0.
unfoldable pub concession_step_paise : ℕ → ℕ → ℕ
concession_step_paise open_paise rate_bps =
    if leb open_paise 0 then 0 else max min_concession_paise (open_paise * rate_bps / bps_divisor)

-- A difference below zero loses to the bid, and so does 0.
unfoldable pub next_seller_ask_paise : ℕ → ℕ → ℕ
next_seller_ask_paise previous_ask previous_bid =
    max
      (previous_ask
        - concession_step_paise (previous_ask - previous_bid) seller_concession_rate_bps)
      previous_bid

unfoldable pub next_buyer_bid_paise : ℕ → ℕ → ℕ
next_buyer_bid_paise previous_bid ceiling =
    min (previous_bid + concession_step_paise (ceiling - previous_bid) buyer_concession_rate_bps)
      ceiling

-- With the standing bid at or below the ceiling, the next bid is not below it, stays at or below
-- the ceiling, and rises by at least 500 paise unless it reaches the ceiling.
pub next_buyer_bid_bounds :
    (bid ceiling : ℕ)
    → bid ≤ ceiling
    → (bid ≤ next_buyer_bid_paise bid ceiling)
      × (next_buyer_bid_paise bid ceiling ≤ ceiling)
      × (min (bid + 500) ceiling ≤ next_buyer_bid_paise bid ceiling)
unfolding next_buyer_bid_paise concession_step_paise
next_buyer_bid_bounds bid ceiling h = ground arith

-- With the standing bid at or below the ask, the next ask is not above the ask and never below the
-- bid, and it falls by at least 500 paise unless it reaches the bid.
pub next_seller_ask_bounds :
    (ask bid : ℕ)
    → bid ≤ ask
    → (bid ≤ next_seller_ask_paise ask bid)
      × (next_seller_ask_paise ask bid ≤ ask)
      × (next_seller_ask_paise ask bid ≤ max bid (ask - 500))
unfolding next_seller_ask_paise concession_step_paise
next_seller_ask_bounds ask bid h = ground arith
