-- ===== src/Endpoint.antt =====
-- The software endpoint of mini-ics/src/server.cpp (`SoftwareEndpointModel`).
pub mod Defs
pub mod Handlers
pub mod Registers
pub mod Traffic
pub mod Answers
pub mod Readiness
