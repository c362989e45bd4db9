-- ===== src/Schema.antt =====
-- packages/schema/aro_schema: the object model, the reviewed subject and the review debt.
pub mod Models
pub mod Subject
pub mod ReviewDebt
