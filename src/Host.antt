-- ===== src/Host.antt =====
-- Machine facts, the command line and start-up (truetop/src/system.rs, cli.rs, lib.rs).
pub mod System
pub mod Cli
pub mod Startup
pub mod Attach
pub mod Attached
pub mod Run
pub mod Started
pub mod Limits
pub mod Btf
pub mod BtfWalk
pub mod BtfTypes
pub mod BtfProto
pub mod BtfFile
pub mod BtfWords
pub mod BtfExact
pub mod BtfRead
pub mod BtfNumbers
pub mod BtfParams
pub mod Injected
pub mod BtfSamples
pub mod BtfExamples
pub mod CliLaws
pub mod CliAccepted
pub mod Examples
