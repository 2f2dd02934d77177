-- ===== src/Startup.antt =====
-- cmd/modeld/main.go, with internal/config, internal/registry and internal/common/fsutil, which it uses
-- before it listens.
pub mod Paths
pub mod Registry
pub mod File
pub mod Flags
pub mod Csv
pub mod Main
pub mod Shutdown
pub mod CommandLine
