-- ===== src/FactpulseClient.antt =====
-- apps/factpulse/client.py: the HTTP client of the FactPulse API. The server and the clock are
-- parameters: the answer to the n-th request and the n-th reading are arbitrary. The lock is left
-- out: the calls of one client stand one behind the other.
pub mod Wire
pub mod Tokens
pub mod Requests
pub mod Endpoints
