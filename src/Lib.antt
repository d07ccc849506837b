-- ===== src/Lib.antt =====
-- qenode (VirtMCU): several emulated microcontrollers, each in its own QEMU, exchange the frames
-- of their buses through a coordinator that makes every run the same. Each node reports DONE at
-- the end of a quantum of virtual time; when all have, the coordinator sorts their messages by
-- one total order, delivers each over the links that the topology allows, and announces the next
-- quantum.
--
-- The parts, the files that model them, and the code (paths from the repository's root):
--
-- Coordinator/Protocol, Message: `Protocol`, `CoordMessage` and its order
-- (tools/deterministic_coordinator/src/topology.rs, barrier.rs).
--
-- Coordinator/Barrier: `QuantumBarrier` (barrier.rs), one function per method; `submit_done` is
-- split at its branches into `submit_next`, `submit_current`, `accept`, `admit` and `promote`.
-- Below it Invariant, Release and Rounds hold the proofs.
--
-- Coordinator/Codec: `decode_batch`, `encode_message` (main.rs). Coordinator/Log: `MessageLog`
-- (message_log.rs).
--
-- Coordinator/Topology: `TopologyGraph` (topology.rs); Topology/World is `from_yaml` on the
-- parsed file, Topology/Links and World/Declared hold the proofs.
--
-- Coordinator/Topics: `parse_legacy_topic` (main.rs) and the templates of topics.rs.
-- Coordinator/Delivery: `deliver_message` (main.rs). Coordinator/Server: the loop of
-- `run_deterministic_coordinator` (main.rs), one function for each kind of sample; Unpack reads
-- the payloads, Legacy and Done handle the samples, InStep and Batches hold the proofs.
--
-- Actuator: the registers of the actuator and its packets
-- (hw/rust/observability/actuator/src/lib.rs); Registers holds the proofs.
--
-- Api: `ZenohFrameHeader` and the frames built with it (hw/rust/common/virtmcu-api/src/lib.rs);
-- Api/Structs holds the other structs of fixed size, Api/Fields what their accessors read.
--
-- Bridge: co-simulation over a socket: Cosim is the wait for a response
-- (hw/rust/common/virtmcu-qom/src/cosim.rs), Mmio the receive loop of the MMIO socket bridge
-- (hw/rust/backbone/mmio-socket-bridge/src/lib.rs) and the handshake; Arrivals, Latest and
-- Session hold the proofs. What happens between two tests of a waiting vCPU is its schedule, an
-- argument.
--
-- Clock: the clock of a node (hw/rust/backbone/clock/src/lib.rs), which holds the guest at each
-- quantum boundary: Backend is what the two threads share, Vcpu the halt hook and the wait,
-- Worker the loop that serves the time authority, System both of them interleaved. `step` is one
-- event of one thread, with what QEMU, the transport or the wall clock answers there: an access
-- to what is shared, or, in a loop that waits, a test that reads both the state and the flag of
-- the shutdown; that the flag is raised between these two reads is an event of its own (`quits`,
-- `overlooks`). A loop of the code is the repetition of its event. The start signals wait in a
-- channel, which the worker of a coordinated node receives from. Handshake, Races, Boundary,
-- Watchdog, Shutdown, Ledger, Starts and Answers hold the proofs.
--
-- Resd: the recorded sensor data (tools/cyber_bridge/src/resd_parser.rs): Sensor is the reading
-- at a virtual time, Parser the reads of a file, Blocks the two loops of `parse`. Bracket,
-- Ending, Cycle and RoundTrip hold the proofs; Reads has their lemmas on files.
--
-- UnixTransport: the transport over Unix sockets and its router
-- (hw/rust/backbone/transport-unix/src/lib.rs, router.rs): a thread that reads is a function of
-- all the bytes that its socket brings, `publish` fills the queue of `tx_loop`, `relay` is the
-- router on the bytes of one connection. Calls and Relay hold the proofs.
--
-- ZenohCoordinator: barrier.rs and topology.rs of the older tools/zenoh_coordinator.
--
-- Lpuart: the S32K144 LPUART (hw/rust/mcu/s32k144-lpuart/src/lib.rs), one function per handler
-- and callback: Device (state, creation, reset, interrupt line), Mmio, Timers, and the proofs in
-- Bits, Flags, Receive, Reset and Transmit.
--
-- Base: what the modules share, of which none models this program: lists, sorting by a total
-- order, bytes, maps as association lists, decimal text, an abstract `f64`. Tests: runs on
-- concrete inputs.
--
-- Machine integers are natural numbers with their wrap-around written out where the code computes
-- with them. `to_string` makes at most twenty digits, which every `u64` fits. `slice::sort` is
-- insertion sort, which for a total order whose equality is identity gives the same list. A
-- cursor is the bytes that it has not read, and after a failed read it has none. The loop of the
-- older barrier runs on as many rounds as its table has quanta, since each round removes one. The
-- parser's loop over samples has one round more than the file has bytes, of which every round
-- reads four at least; its loop over blocks may not end, so its fuel is an argument. The threads
-- that read a Unix socket have as many rounds as there are bytes, of which a round reads eight at
-- least. The order of a hash map's or set's elements is the order of its list.
--
-- Each method of a barrier holds its mutex throughout, the loop of the coordinator handles one
-- sample at a time, and the handlers of the LPUART run under the lock of QEMU, so there an
-- interleaving is a sequence of calls. The threads of the clock interleave at these events, in
-- the order of sequential consistency; a condition variable may wake its waiter at any time. Of
-- the compare-and-exchange loop of the LPUART's subscription the effect of one frame is modelled.
--
-- Not modelled: zenoh, FlatBuffers tables, YAML and JSON parsing, which are parameters or whose
-- result is the argument; input and output and their errors; command line, logging and session
-- set-up; QEMU itself; the peripherals and tools that have no file here.
pub mod Actuator
pub mod Api
pub mod Base
pub mod Bridge
pub mod Clock
pub mod Coordinator
pub mod Lpuart
pub mod Resd
pub mod Tests
pub mod UnixTransport
pub mod ZenohCoordinator
