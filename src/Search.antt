-- ===== src/Search.antt =====
-- src/search.c, by the kinds of table it keeps.
pub mod Avl
pub mod Hash
pub mod Linear
mod Examples
