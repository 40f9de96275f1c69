-- ===== src/Types.antt =====
-- The package types: what a value looks like in SQL text, and how it is read back.
pub mod Result
pub mod Append
pub mod Field
pub mod Onto
pub mod Quoted
pub mod Decimal
pub mod Jsonb
pub mod Kinds
pub mod Tests
