-- ===== src/Server.antt =====
-- cmd/server/main.go: the levels of logging, the routes, and the start.
pub mod Mux
pub mod Routes
pub mod Start
pub mod History
pub mod Serving
pub mod Shutdown
mod Tests
