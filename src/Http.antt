-- ===== src/Http.antt =====
-- internal/httpapi: the HTTP interface of the service.
pub mod Settings
pub mod Logging
pub mod Response
pub mod Handlers
pub mod Metrics
pub mod Mux
