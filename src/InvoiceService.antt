-- ===== src/InvoiceService.antt =====
-- apps/billing/services/invoice_service.py: the life of an invoice. Each function takes the object
-- that the caller holds, and returns the changed object beside the database.
pub mod Lifecycle
pub mod Preparation
pub mod Numbered
pub mod Validation
pub mod Payment
pub mod CreditNote
pub mod Amounts
pub mod Outcomes
pub mod Cancellation
pub mod Payloads
pub mod Drafts
mod Tests
