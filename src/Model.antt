-- ===== src/Model.antt =====
-- The data of apps/billing/models.py, and the records that the services and tasks share.
mod Choices
mod Data
mod Rows
mod Effects
mod Store
mod Constraints
pub use Choices.*
pub use Data.*
pub use Rows.*
unfoldable pub use Store.{find, put, sync_denormalized_fields, collides, save, save_fields}
pub use Effects.*
pub use Store.*
pub use Constraints.*
