-- ===== src/Server.antt =====
-- How a service's servers start, run and end: ListenAndServeContext (http.go), the health server's
-- ListenAndServe (health.go) and the API server's (api_server.go), which runs both in a group.
pub mod Serving
pub mod Group
pub mod Api
pub mod Closing
pub mod Returning
pub mod Termination
pub mod HealthServing
pub mod Tests
