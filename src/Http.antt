-- ===== src/Http.antt =====
-- internal/httpapi/server.go. Requests: bodies, answers and
-- postEvents. Handlers: those of reads and rules. Limit: LimitListener. Ingest, Puts
-- and Slots have the proofs. Stream: the frames of subscribe.
mod Requests
mod Handlers
mod Limit
unfoldable pub use Requests.*
unfoldable pub use Handlers.*
unfoldable pub use Limit.*
pub mod Ingest
pub mod Slots
pub mod Puts
pub mod Stream
