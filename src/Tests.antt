-- ===== src/Tests.antt =====
-- The theorems at concrete inputs.
mod Fixtures
mod Calls
mod Queues
mod Instances
mod Processes
mod Streams
mod Shells
mod Requests
mod Routers
mod Posts
mod Starts
