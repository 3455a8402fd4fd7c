-- ===== src/Harness.antt =====
-- The Verilator harness, rtl/alex/verilator_qemu_main.cpp.
pub mod Ports
pub mod Words
pub mod Dma
pub mod Ring
pub mod Device
pub mod Headers
pub mod Completions
pub mod Faults
