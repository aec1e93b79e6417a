-- ===== src/Text.antt =====
-- The strings of kernel/base: a string is the list of its characters before the NUL, and a pointer
-- into it is what is left of the list from there on.
pub mod Number
pub mod Strings
mod Tests
