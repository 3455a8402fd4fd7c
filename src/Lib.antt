-- ===== src/Lib.antt =====
-- Verification of Mini ICS, the transaction layer of this repository: the C++ library under mini-ics/
-- that carries PCIe-like traffic between a host (QEMU or mini-ics/src/host_client.cpp) and a device
-- (an RTL simulation, or the software endpoint of mini-ics/src/server.cpp) over a Unix socket.
--
-- The parts, from the wire up, and the files that model them:
--
-- Base: lists, options, Boolean tests and bit operations on native numbers that the parts share.
--
-- Protocol (mini-ics/include/mini_ics/protocol.hpp, mini-ics/src/protocol.cpp): Types has the
-- constants, enumerations, Header and Message; Bytes has PutU16 to GetU64; Codec has SerializeHeader,
-- DeserializeHeader, SerializeMessage and MakeHeader; RoundTrip holds the proofs. Bytes are numbers
-- below 256 and buffers are lists. An enumeration crosses the wire as its number (`code`,
-- `status_code`), so values without a name stay possible, as in the source.
--
-- Socket (mini-ics/src/socket.cpp): Kernel states the system calls as a record of functions on a
-- state `World`, with what POSIX promises of a stream (StreamLaws); Transfer has PollFor, SendAll,
-- RecvAll and WaitReadable; Connection has Close, move assignment, Listen, Accept and
-- ConnectUnixSocket; Framing reads a header and its payload, as ReadMessage of host_client.cpp and
-- IoThreadMain of server.cpp both do. Exact and Termination are about the loops.
--
-- Transaction (mini-ics/include/mini_ics/transaction.hpp): Ids, Queue and Pending are
-- TransactionIdGenerator, BlockingQueue and PendingRequestTable. The maps are association lists. Each
-- critical section is one step; a wait on a condition variable is the list of the steps that other
-- threads make until the waiter has the lock again.
--
-- Server (mini-ics/src/server.cpp, mini-ics/include/mini_ics/server.hpp): Defs has the state of
-- MiniIcsServer, Start, Stop and the I/O thread, of which `io_step` is one round; Requests has
-- PollInbound, SendResponse and SendRequestToHost, in whose waits the I/O thread makes a number of
-- rounds that is an argument. Invariant, Correlation, Clearance and Delivery hold the
-- proofs.
--
-- Endpoint (SoftwareEndpointModel of mini-ics/src/server.cpp): Defs has the registers, Handlers the
-- handlers and the loop, over a Link, the calls of the server that the endpoint makes.
--
-- Host (mini-ics/src/host_client.cpp): Memory is HostMemory; Client is the service of the DMA that the
-- endpoint starts, and Demo the steps of RunDemo. Log lines count for the time stamps that they take.
-- Steps, Service, Unwritten and Outcome hold the proofs.
--
-- Harness (rtl/alex/verilator_qemu_main.cpp): Ports is the class Harness with its clock, MMIO and reset over
-- the generated model of the RTL, a record Dut with its ports; Words has DecodeLe, EncodeLe, ReadLe16 to
-- ReadLe64, StoreLe and the loops between bytes and data words; Dma is SendCompletion, DmaRead and DmaWrite;
-- Ring is RunGenericDma; Device is the main loop with its registers. The server is a Link. What is undefined
-- in C++, a read out of bounds or a shift by the width of a word, is `none`. Headers, Completions, Faults and
-- the children of Words, Dma and Ring hold the proofs.
--
-- Dpi (mini-ics/dpi/mini_ics_dpi.cpp): each function of the shim, around the server of Server. Staging holds
-- the proofs.
--
-- Driver (guest/pcie-vip/driver/pcie_vip.c): Layout has the descriptors, the completions and the data of a
-- run, byte by byte; Run has pcie_vip_run_config and pcie_vip_ioctl over a Machine, the calls of the Linux
-- kernel; Probe has pcie_vip_probe and pcie_vip_remove over a Bus, its other calls. Composed and Programmed
-- are about the driver and the harness together, Tool and its child about the options of
-- guest/pcie-vip/user/pcie-vip-run.c, Passed about its iterations, Balance and the children of
-- Probe about what the driver takes and gives back.
--
-- Tests runs the models on concrete inputs.
--
-- Fuel: the loops of Transfer take fuel, and `none` says that it ran out, which no loop of the source
-- does. Each round either moves a byte, uses up one of the interruptions that the kernel still has in
-- store (`patience`), or ends the loop, and Socket/Termination
-- states the fuel in these terms. The loops of Harness have the bounds of the source, and SendCompletion is
-- called at most once for each byte of a response. The rounds of the I/O thread and of the endpoint's loop are a bound on how
-- long it is watched: the source runs them until it is stopped.
--
-- Not modelled: log output and the TLP log; the C++ main functions' arguments and signals; the
-- generated model of the RTL, the SystemVerilog and the smoke test rtl/alex/verilator_main.cpp; the
-- interrupt handler of the guest driver, guest/pcie-vip/user/pcie-vip-pcimem.c and
-- what pcie-vip-run.c prints; the Python scripts. Times are
-- the kernel's answers: a wait either times out or not.
pub mod Base
pub mod Protocol
pub mod Socket
pub mod Transaction
pub mod Server
pub mod Endpoint
pub mod Host
pub mod Harness
pub mod Dpi
pub mod Driver
mod Tests
