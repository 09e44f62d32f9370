-- ===== src/Actions.antt =====
-- app/actions: the prepare, confirm, execute workflow over the table of actions, which is also its
-- audit trail.
pub mod Models
pub mod Store
pub mod Workflow
pub mod Rows
pub mod Prepare
pub mod Confirm
pub mod Success
pub mod Idempotent
pub mod Race
