-- ===== src/Sinks.antt =====
-- internal/sinks: what the workers of the sink queues deliver. Influx: influx.go. Ntfy: ntfy.go. Reply:
-- what comes of a request. Lines, Escapes and Posts have the proofs.
pub mod Reply
pub mod Influx
pub mod Ntfy
pub mod Lines
pub mod Escapes
pub mod Posts
