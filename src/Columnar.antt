-- ===== src/Columnar.antt =====
-- crates/rypipe-core/src/columnar.rs: the flat storage of a column.
pub mod Bits
pub mod Bitmap
pub mod Contents
pub mod Slices
pub mod Flat
pub mod Nullable
pub mod Primitive
pub mod Cells
pub mod Texts
pub mod Rows
pub mod TextCells
pub mod TextRows
pub mod TextRead
pub mod Dict
pub mod Words
pub mod Entries
pub mod Remap
pub mod Coded
pub mod DictColumn
mod Tests
