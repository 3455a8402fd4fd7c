-- ===== src/Protocol.antt =====
-- mini-ics/include/mini_ics/protocol.hpp and mini-ics/src/protocol.cpp: the Mini-ICS v2 wire format.
pub mod Types
pub mod Bytes
pub mod Codec
pub mod RoundTrip
