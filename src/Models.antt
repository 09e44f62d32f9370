-- ===== src/Models.antt =====
-- Enumerations and records of app/models, app/domain/outcomes.py, app/policy, app/authorization
-- and app/actions/models.py, and the tables of app/db/schema.sql as typed rows.
--
-- An instant is a whole number of microseconds of the clock's wall time from a fixed day zero,
-- and a date is its day number: every datetime that the code compares carries the clock's zone.
-- Money is held in units of 1/10,000 rupee, and a percentage as a whole number of percent.
mod Enums
mod Records
pub mod Sql
pub use Enums.*
unfoldable pub use Records.*
