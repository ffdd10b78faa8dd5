-- ===== src/PayloadBuilder.antt =====
-- apps/billing/services/payload_builder.py: the fields of a snapshot that are missing.
pub mod Lines
pub mod Totals
pub mod Dates
pub mod Rates
pub mod Balance
pub mod Stable
mod Tests
