-- ===== src/StripeImport.antt =====
-- The import of Stripe's invoices and credit notes as drafts, and the handlers of their events, of
-- apps/payments/services.py, with the customers of apps/payments/providers/stripe/sync.py. The
-- notification by mail is left out: no exception leaves it.
pub mod Customers
pub mod Documents
pub mod Events
pub mod CatchUp
pub mod Once
pub mod Listing
pub mod Complete
pub mod Paid
mod Tests
