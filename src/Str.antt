-- ===== src/Str.antt =====
-- src/string.c, by groups of functions. A pointer is the list of the bytes from it to the end of its
-- buffer; two pointers into different buffers are two lists. Reading or writing past the end is a fault.
pub mod Mem
pub mod Copy
pub mod Word
pub mod Span
pub mod Fold
pub mod Search
pub mod Move
pub mod Compare
mod Examples
