-- ===== src/Io.antt =====
-- The package io: reading and writing of single bits over byte streams.
pub mod BitWriter
pub mod BitReader
pub mod Travels
