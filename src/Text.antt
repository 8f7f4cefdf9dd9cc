-- ===== src/Text.antt =====
-- What the program uses of Go's `strings` and `strconv`, over bytes.
pub mod Space
pub mod Case
pub mod Search
pub mod Number
