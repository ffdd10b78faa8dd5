-- ===== src/FactpulseTasks.antt =====
-- apps/factpulse/tasks.py: the Celery tasks that talk to the FactPulse API.
pub mod Generation
pub mod Transmission
pub mod Cdar
pub mod Ereporting
pub mod Fallback
