-- ===== src/Engine.antt =====
-- internal/engine: the core. State is what an Engine holds, Routing how a host is sent to a partition,
-- Subs the subscribers (subs.go).
mod State
mod Routing
mod Subs
unfoldable pub use State.*
unfoldable pub use Routing.*
unfoldable pub use Subs.*
mod Placement
mod Loops
mod Store
unfoldable pub use Placement.*
unfoldable pub use Loops.*
unfoldable pub use Store.*
mod Reads
unfoldable pub use Reads.*
pub mod Instances
pub mod Installed
pub mod Running
pub mod Versions
pub mod Admission
pub mod Shedding
pub mod Lookups
pub mod Stats
pub mod Accounting
pub mod Homes
pub mod Homing
pub mod Arrivals
pub mod Life
