-- ===== src/Lib.antt =====
-- truetop shows, for each process of a Linux host, its CPU time, its time in uninterruptible sleep and
-- its memory. Programs in the kernel (truetop-ebpf) run on the scheduler's tracepoints and keep counters
-- in maps; a collector in user space (truetop) reads the maps every tick, turns the counters into rates,
-- names the processes, and publishes a snapshot, which the terminal interface filters, sorts and shows.
--
-- Kernel: the programs, one module for each source file, over explicit state.
--   Kernel/Maps     what the programs use of the kernel's maps. What a full LRU map evicts is a parameter.
--   Kernel/Task     truetop-ebpf/src/task.rs: reads of a task through injected offsets. Memory is a
--                   parameter, a record of reads that may fault.
--   Kernel/Cpu      truetop-ebpf/src/cpu.rs: `charge_out` and `mark_in` on the three maps.
--   Kernel/Iowait   truetop-ebpf/src/iowait.rs: `sleep_out`, `wake_in` and `forget_thread`.
--   Kernel/Comm     truetop-ebpf/src/comm.rs and creds.rs: names and uids.
--   Kernel/Sched    truetop-ebpf/src/sched.rs, lifecycle.rs and exit_notify.rs: the switch and the exit.
--   Kernel/Charge, Kernel/Sleep, Kernel/Waits, Kernel/Reads, Kernel/Names, Kernel/Exit: proofs.
-- Metrics: truetop/src/metrics.
--   Metrics/Counters   mod.rs, cpu.rs and iowait.rs: snapshots and rates.
--   Metrics/Identity   identity.rs: names and users, from the map, /proc and /etc/passwd.
--   Metrics/Memory     mem.rs: resident memory.
--   Metrics/Rates, Metrics/Names: proofs.
-- Host: facts and decisions at start-up.
--   Host/System     truetop/src/system.rs: the files of /proc and the CPU topology.
--   Host/Cli        truetop/src/cli.rs: the command line.
--   Host/Startup    truetop/src/lib.rs: sizes of the maps, injected offsets, the ends of a run.
--   Host/Btf, Host/BtfTypes  truetop/src/btf.rs: the reader of the kernel's type information.
--   Host/BtfFile    the format of that information: a file as types and strings, and what it says.
--   Host/BtfSamples truetop/src/btf.rs: the files that its tests build.
--   Host/Attach     truetop/src/lib.rs: loading, attaching and the maps that the collector takes.
--   Host/Injected   truetop/src/lib.rs: the globals that are injected, from the file of the type information.
--   Host/Run        truetop/src/lib.rs: `run` and `run_ui`.
--   Host/Attached, Host/Started: proofs.
--   Host/Limits, Host/CliLaws, Host/CliAccepted, Host/BtfWalk, Host/BtfProto, Host/BtfWords, Host/BtfExact,
--   Host/BtfRead, Host/BtfNumbers, Host/BtfParams: proofs.
-- Collector: the tick.
--   Collector/Batch     truetop/src/batch.rs: per-CPU maps in batches. The system call is a parameter.
--   Collector/CpuMaps   truetop/src/cpu_maps.rs: the correction for running threads.
--   Collector/Reaper    truetop/src/reaper.rs and truetop-common/src/lib.rs: departures.
--   Collector/Backend   truetop/src/backend.rs: one tick, as a function from the collector and what it
--                       meets to the snapshot, the next collector and the maps that it leaves.
--   Collector/Headless  truetop/src/backend.rs: the run without the interface.
--   Collector/Totals, Orders, Reading, Intervals, Known, Rows, Shares, WaitShares, Recycled, Reaping,
--   Candidates, Ticks: proofs.
--   Collector/Selection gives
--   a selection of which what is assumed of the standard library's holds.
-- Ui: truetop/src/ui.
--   Ui/App          mod.rs: the view state, its keys, and what a draw does to it.
--   Ui/Loop         mod.rs: the event loop, as a run over what each of its turns meets.
--   Ui/Terminal     mod.rs: the terminal and the panic hook around the loop.
--   Ui/Table        table.rs: filtering and ranking.
--   Ui/Theme, Ui/Cells  theme/mod.rs, theme/detect.rs, table.rs and mod.rs: the texts and styles of a row.
--   Ui/Spans, Ui/Status  theme/mod.rs and mod.rs: texts with their looks, and the status line.
--   Ui/Header       header.rs: the identity line, the charts and the gauges.
--   Ui/Frame        table.rs and mod.rs: the table and the whole frame.
--   Ui/Keys, Ui/Turns, Ui/Order, Ui/Gauges, Ui/Drawn: proofs.
-- World: the running program.
--   World           the five programs of the kernel and the ticks of the collector over one state:
--                   truetop/src/lib.rs `setup_collector` and truetop/src/backend.rs `collector_loop`.
--   World/Queue, Reaped, Waits: proofs.
-- Tasks: the developer's tasks, xtask and bench.
--   Tasks/Tuning    xtask/src/bench/cpu_perf.rs: the tuning of the CPU, and what its drop reverts.
--   Tasks/Bench     xtask/src/bench/mod.rs: the benchmark command. Its steps are a parameter.
--   Tasks/Steps     xtask/src/bench: the commands of each benchmark.
--   Tasks/Env       xtask/src/bench/env.rs: the provenance of a run.
--   Tasks/Runner    xtask/src/runner.rs: building, running as root, and counting tests.
--   Tasks/Fixtures  xtask/src/btf_fixtures.rs: fetching with pinned checksums.
--   Tasks/Entry     xtask/src/main.rs, style.rs and privilege.rs.
--   Tasks/Scaling   bench/src/lib.rs: the two ways of collecting that are compared.
--   Tasks/Build     truetop/build.rs: the toolchain that builds the programs of the kernel.
--   Tasks/Load      bench/src/bin: the load generators, over the answers of `fork`.
--   Tasks/Shell, Reverting, Restoring, Picking, Counting, Ordering, Stat: proofs.
-- Common: shared helpers: Boolean tests, lists, association lists, machine words, text as code points,
-- and floats as a parameter.
-- The modules whose names end in Examples apply the theorems at concrete inputs.
--
-- Conventions. Numbers are natural numbers; where the source wraps or saturates, so does the model, with
-- the modulus written out. A BPF map is an association list, a per-CPU value a function of the CPU. A
-- program of the kernel is a function on the maps' state: programs do not overlap within one step. A file
-- is its contents, or `none` where it cannot be read. Hash maps iterate in the order of insertion. A read
-- of the counters meets one state of the maps: no switch falls within it. For a tick the two
-- reads are functions of the maps; Collector/Batch and Collector/CpuMaps model how they are made, and
-- Collector/Shares and WaitShares follow them from the programs to a row.
--
-- Bounds. The batched read runs on fuel, one unit for each call; as many units as the kernel serves
-- chunks are enough. The walks over the type information run on one unit more than the file has bytes;
-- a record takes 12 bytes at least. Every other loop is structural. The reaper's budget is the source's.
--
-- Host/Startup takes the answers of the type information as a parameter, for which Host/Injected puts
-- those of the reader.
--
-- Not modelled: what the terminal library draws of the spans, rows and points; the calls of aya, tokio
-- and libc, whose answers are parameters; the messages of the tasks; the criterion benchmark; and the
-- build script that looks up the linker.
pub mod Common
pub mod Kernel
pub mod Metrics
pub mod Host
pub mod Collector
pub mod Ui
pub mod World
pub mod Tasks
