-- ===== src/Negotiation.antt =====
-- packages/mcpServer/src/negotiation and tools/priceNegotiator.ts: the alternating-offer loop, the
-- registry of agreed prices and the response of negotiate_price.
pub mod AgreedPrices
pub mod PriceLaws
pub mod Ladder
pub mod Gateway
pub mod Loop
pub mod LoopRule
pub mod Safety
pub mod Response
pub mod Tool
pub mod ToolLaws
pub mod Bindable
