-- ===== src/CString.antt =====
-- src/lib/string.c. A C string is the list of its bytes before the terminating NUL.
pub mod Compare
pub mod Digits
pub mod Memory
pub mod Tokens
