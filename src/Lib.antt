-- ===== src/Lib.antt =====
-- The verification library of modeld, a Go daemon that serves local language models over HTTP.
--
-- The program. cmd/modeld/main.go reads flags and a configuration file, scans a directory for models
-- (internal/registry), makes a manager (internal/manager) and serves it over HTTP (internal/httpapi). A
-- request to POST /infer goes through the handler to the manager's Infer, which makes sure that an
-- instance of the model is loaded (EnsureInstance, with the eviction of idle instances when the memory
-- budget is used up), takes a queue slot and the instance's only generation slot (beginGeneration),
-- lets an adapter generate, and streams a line of JSON for each token. The adapters are clients of
-- llama.cpp servers: one that runs elsewhere, or processes that the daemon spawns, one for each model.
--
-- The files.
--   Common: names, operators, lists, integers and texts that the others share.
--   Types, Config, Errors, Events: pkg/types; ManagerConfig, errors.go and events.go of
--     internal/manager. errors.As and errors.Is are recursion through `wrapped`.
--   Decimal: fmtUint of internal/manager/manager.go and itoa of internal/httpapi/metrics.go.
--   Process: adapter_llama_subprocess.go. A method is a state-passing function into Option, where
--     `none` is a call that has not returned, as on a mutex that is held. That Stop ends a process is
--     the entry of its pid in `terminated`. Ports, Spawn, Readiness and Stopping are its parts.
--   Server, Stream, Generate: adapter_llama_server.go, the reading loops of both adapters, and Generate
--     of their sessions.
--   Manager: the state. Instances: the map of instances. Setup: construction and setters. Evict:
--     instance_evict.go. Load, Ensure: instance_ensure.go. Unload: unload.go. Queue: queue_admission.go.
--     Status: status_report.go and Ready. Preflight: sanity.go.
--   Output, Infer: inference.go. A panic is a value.
--   Http: internal/httpapi. Settings: config.go, context.go and NewMuxWithOptions. Logging: logging.go.
--     Response: the response writer and errors.go. Handlers: server.go. Metrics: metrics.go.
--     Mux: NewMux, for any router, with what is documented of chi in Mux/Routing.
--   Startup: cmd/modeld/main.go, with internal/config, internal/registry and internal/common/fsutil.
--     CommandLine: the flags with their defaults. Main: from the flags to the listening. Shutdown: from
--     there to the end of the program.
--   Testctl: internal/testctl and cmd/testctl, the tool that installs what the tests need and runs them.
--     A function is a script, an action on a machine that may fail; the machine (commands, files, ports,
--     clock) is a parameter. Run: executil.go, logenv.go and process.go. Env, Os, Files, Ports, Install,
--     Ci, Web, Cli: the files of these names. Keeps has the rules for what scripts keep, and the others
--     what is proved of them.
--   Tests: the theorems at concrete inputs.
--
-- How the code is modelled. A record stands for a struct, and a function for a function, with its state
-- passed explicitly. What the system gives (clocks, os.Stat, processes, HTTP responses, JSON) is a
-- record of functions, the environment of a call, so that a theorem holds for everything the system may
-- do. A critical section of the manager's mutex is one step. The requests of the admission queue are
-- state machines whose steps interleave in any order (Manager.Queue.System).
--
-- Integers are exact: the program's megabytes, ports, counts and durations stay far below 2 ^ 63. Texts
-- are lists of code points, or of bytes where the code counts bytes. Floats are numbers that are only handed on.
--
-- Fuel. write_rounds (Output) and write_loop (Http.Logging) have as much as the text is long, and each
-- round takes something off; evict_loop has one round more than there are instances, and each round
-- removes one. The theorems on ensure_process and unload, whose loops end by a clock, take as many
-- rounds as the clock needs to pass the deadline. wait_http (Testctl.Ports) has one round for each
-- second of its time limit, and two more; to run out of them is an error of its own, which no run gives.
--
-- Not modelled: chi, its middlewares and cors, whose calls are parameters, the encodings of JSON, YAML and TOML, the time limit
-- of the context of a completion, the parsing of the command line by package flag, the generated
-- API documentation (docs), and the command tree of testctl, which cobra reads.
pub mod Common
pub mod Decimal
pub mod Types
pub mod Errors
pub mod Events
pub mod Config
pub mod Server
pub mod Process
pub mod Stream
pub mod Manager
pub mod Output
pub mod Infer
pub mod Generate
pub mod Http
pub mod Startup
pub mod Testctl
mod Tests
