-- ===== src/Mm.antt =====
-- ver05/mm: physical pages, page tables, copy on write and swapping.
pub mod State
pub mod Pages
pub mod Swap
pub mod Tables
pub mod Counts
pub mod Free
pub mod Restore
pub mod Cow
pub mod Slots
pub mod Ends
mod Tests
