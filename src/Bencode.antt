-- ===== src/Bencode.antt =====
-- The bencode parser, src/bencodeparser.cpp.
pub mod Value
pub mod Parser
pub mod Encoding
