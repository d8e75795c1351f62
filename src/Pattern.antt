-- ===== src/Pattern.antt =====
-- src/fnmatch.c: bracket expressions, the matching loop, and what is known of it.
pub mod Bracket
pub mod Fnmatch
pub mod Length
pub mod Bound
pub mod Meaning
pub mod Parts
pub mod Rounds
pub mod Correct
mod Examples
