-- ===== src/Models.antt =====
-- The entities of control_center/models/v3_workflow.py.
mod Status
mod Entities
mod Validate
pub mod Hierarchy
pub use Status.*
pub use Entities.*
unfoldable pub use Validate.*
