-- ===== src/Prelude.antt =====
-- The names that the other modules share: the libraries', passed on, and those of its children.
mod Tests
mod Lists
mod Results
mod Base
pub mod Int
pub mod Text
pub mod Stripping
pub mod Sorting
pub mod Json
pub mod Dicts
pub mod Canonical
pub mod Dates
pub use Base.*
