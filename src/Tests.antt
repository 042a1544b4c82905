-- ===== src/Tests.antt =====
-- Concrete runs of the components, and the theorems at concrete inputs.
pub mod Data
pub mod Pricing
pub mod Inventory
pub mod Crypto
pub mod Negotiation
pub mod Quote
pub mod Session
pub mod Shipping
pub mod LockTool
pub mod Sdk
pub mod Delegation
pub mod Flow
pub mod Carts
