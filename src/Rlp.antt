-- ===== src/Rlp.antt =====
-- rlp/encode.go and rlp/decode.go: the byte-level codec. A byte slice is a list of numbers.
pub mod Uint
pub mod Encode
pub mod Stream
pub mod Header
pub mod Strings
pub mod Integers
pub mod Lists
pub mod Splitting
mod Tests
