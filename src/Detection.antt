-- ===== src/Detection.antt =====
-- app/detection: models.py, fingerprint.py and rules.py, of the Operations Radar. Each rule
-- reads the rows that the caller may see, and lists alerts. `sha16` is the first sixteen digits of
-- a text's SHA-256 digest, and `decimal` is `str` on a natural number.
--
-- Known-issue patterns, which match a document's text by regular expressions, are not modelled.
pub mod Alert
pub mod Tickets
pub mod Orders
pub mod KnownIssues
pub mod Service
pub mod Sound
pub mod Scoped
