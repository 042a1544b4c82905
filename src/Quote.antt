-- ===== src/Quote.antt =====
-- packages/mcpServer/src/tools/skuQuoter.ts: get_live_sku_quote. The request has passed
-- skuQuoteSchema.ts. The clock is read three times: by the discount stack, by the lookup of an
-- agreed price, and when the quote is signed. HMAC is an argument.
pub mod Price
pub mod Package
pub mod Stages
pub mod Laws
pub mod Reconciles
pub mod Charged
pub mod Faults
