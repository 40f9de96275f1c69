-- ===== src/Orm.antt =====
-- The package orm: queries put together from parts, and their parameters put into their text.
pub mod Format
pub mod Template
pub mod Filled
pub mod Scalars
pub mod Table
pub mod Names
pub mod Cased
pub mod Joins
pub mod Routes
pub mod Tags
pub mod Query
pub mod Clauses
pub mod Columns
pub mod Select
pub mod Slots
pub mod Statements
pub mod Grows
pub mod Safe
pub mod Params
pub mod Pager
pub mod Run
pub mod Conflicts
pub mod Paging
pub mod Tests
