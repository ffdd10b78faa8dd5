-- ===== src/Core.antt =====
-- apps/core: users, organizations and memberships, API keys, and the organization of a request.
pub mod Rows
mod Tests
mod ApiKeys
mod Access
mod Context
mod Slugs
mod Signup
use Rows
