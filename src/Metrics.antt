-- ===== src/Metrics.antt =====
-- The per-process metrics of truetop/src/metrics: counters that are diffed between ticks, and what
-- is looked up for each row.
pub mod Counters
pub mod Rates
pub mod Identity
pub mod Names
pub mod Memory
pub mod Examples
