-- ===== src/Inventory.antt =====
-- packages/mcpServer/src/inventory: the in-memory locker, its sweeper, fencing tokens and the
-- registry of issued quotes.
pub mod Locker
pub mod Fencing
pub mod Sweep
pub mod Conservation
pub mod Grants
pub mod IssuedQuotes
pub mod QuoteLaws
