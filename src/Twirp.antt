-- ===== src/Twirp.antt =====
-- The hooks of a Twirp server: those that log (twirp.go), count (twirp_metrics.go) and authenticate
-- (api_server.go), and ServiceOptions, which chains them.
pub mod Hooks
pub mod Logging
pub mod Metrics
pub mod Options
pub mod Defaults
pub mod Measured
pub mod Tests
