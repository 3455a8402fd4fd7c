-- ===== src/Server.antt =====
-- mini-ics/src/server.cpp: the transaction server.
pub mod Defs
pub mod Requests
pub mod Invariant
pub mod Correlation
pub mod Delivery
pub mod Clearance
