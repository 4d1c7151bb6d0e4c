-- ===== src/Filter.antt =====
-- The row filter: three-valued evaluation while a row is buffered
-- (crates/rypipe-core/src/engine/predicate.rs, engine/table_builder/predicates.rs).
pub mod Row
pub mod Leaf
pub mod Compare
pub mod Eval
pub mod Settle
pub mod AtEnd
pub mod Early
pub mod Buffer
pub mod Accept
pub mod Absence
mod Tests
