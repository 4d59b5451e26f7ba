-- ===== src/Kernel.antt =====
-- The eBPF programs of truetop-ebpf: one module for each source file, and the proofs about them.
pub mod Maps
pub mod Task
pub mod Cpu
pub mod Charge
pub mod Iowait
pub mod Comm
pub mod Sched
pub mod Reads
pub mod Sleep
pub mod Waits
pub mod Names
pub mod Exit
pub mod Examples
