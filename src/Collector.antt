-- ===== src/Collector.antt =====
-- The collector of truetop: the kernel's maps read, diffed and published once a tick.
pub mod Batch
pub mod Totals
pub mod Orders
pub mod CpuMaps
pub mod Reading
pub mod Intervals
pub mod Known
pub mod Rows
pub mod Shares
pub mod WaitShares
pub mod Recycled
pub mod Reaper
pub mod Reaping
pub mod Backend
pub mod Ticks
pub mod Headless
pub mod Candidates
pub mod Selection
pub mod Examples
pub mod ShareExamples
pub mod RecycledExamples
