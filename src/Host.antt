-- ===== src/Host.antt =====
-- mini-ics/src/host_client.cpp: guest memory and the client that services DMA against it.
pub mod Memory
pub mod Client
pub mod Steps
pub mod Service
pub mod Demo
pub mod Unwritten
pub mod Outcome
