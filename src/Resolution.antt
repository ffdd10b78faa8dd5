-- ===== src/Resolution.antt =====
-- apps/billing/services/resolution_service.py: the suppliers, customers and products of a payload.
pub mod Merge
pub mod Entities
pub mod Parties
mod Tests
