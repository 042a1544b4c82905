-- ===== src/Pricing.antt =====
-- packages/mcpServer/src/catalog/pricingEngine.ts: volume tiers, GST and the automatic discount
-- stack. Amounts are whole paise, counts and rates whole numbers, as the catalog schemas admit
-- them (mcpToolTypes.ts), so `assertIntegerPaise` never throws; rates are in basis points of at
-- most 10000, which the theorems take as a hypothesis. Labels, which are display text, are left out.
pub mod Data
pub mod Promotions
pub mod Volume
pub mod Stack
pub mod Tiers
pub mod Windows
pub mod Promise
pub mod Tax
pub mod Reconciliation
