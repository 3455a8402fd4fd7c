-- ===== src/Socket.antt =====
-- mini-ics/include/mini_ics/socket.hpp and mini-ics/src/socket.cpp: transfers over a stream socket.
pub mod Kernel
pub mod Transfer
pub mod Exact
pub mod Termination
pub mod Framing
pub mod Connection
