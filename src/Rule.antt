-- ===== src/Rule.antt =====
-- internal/rule: rules. Tree has the compiled tree (compile.go), Runtime the state of the loop that
-- hosts instances (runtime.go, and the Runtime interface as its loops implement it), Steps what each
-- stateful node decides by its own state, and Process the nodes (nodes.go).
mod Tree
mod Runtime
mod Steps
mod Process
mod Hosting
pub mod Compile
pub mod Settling
pub mod Changes
pub mod Alerts
pub mod Throttling
unfoldable pub use Tree.*
unfoldable pub use Runtime.*
unfoldable pub use Steps.*
unfoldable pub use Process.*
unfoldable pub use Hosting.*
