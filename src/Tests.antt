-- ===== src/Tests.antt =====
-- The models run on concrete inputs, and each property at one of them.
mod Loopback
mod Wire
mod Sockets
mod Transactions
mod Servers
mod Endpoints
mod Hosts
mod Boards
mod Harnesses
mod Probes
mod Dpis
mod Drivers
