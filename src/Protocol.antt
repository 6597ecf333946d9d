-- ===== src/Protocol.antt =====
-- packages/core/src/protocol: row values, row keys, query semantics and subscription events.
pub mod Value
pub mod StableKey
pub mod Host
pub mod QuerySemantics
pub mod BigInts
pub mod Texts
pub mod Delta
