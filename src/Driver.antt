-- ===== src/Driver.antt =====
-- The guest driver, guest/pcie-vip/driver/pcie_vip.c, and its user tool.
pub mod Layout
pub mod Run
pub mod Composed
pub mod Passed
pub mod Balance
pub mod Programmed
pub mod Probe
pub mod Tool
