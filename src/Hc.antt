-- ===== src/Hc.antt =====
-- The package hc: header compression, HPACK and QPACK.
pub mod Integers
pub mod Headers
pub mod StaticTable
pub mod Table
pub mod LargestReference
pub mod QpackTable
pub mod HuffmanTable
pub mod Huffman
pub mod UsageTracker
pub mod HpackTable
pub mod Strings
pub mod IndexPreferences
pub mod HpackDecoder
pub mod HpackEncoder
pub mod QpackFeedback
pub mod QpackEncoder
pub mod QpackDecoder
pub mod QpackWriter
