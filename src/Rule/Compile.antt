-- ===== src/Rule/Compile.antt =====
-- compile.go: the parser and compiler of rule documents. Defs has the compiler's state and errors, Heads
-- the keys of a node, Nodes the compiler of nodes, and Documents Parse and compileDoc. The proofs: Post
-- (the rule for errors), Shape (predicates on trees), Settings, Measure, Registry, Sound (nodes), Sorting,
-- Identity, Accepted (documents) and Again.
mod Defs
mod Post
mod Heads
mod Nodes
mod Documents
pub mod Shape
mod Settings
mod Measure
mod Registry
pub mod Sound
mod Sorting
mod Identity
pub mod Accepted
pub mod Again
unfoldable pub use Defs.*
unfoldable pub use Heads.*
unfoldable pub use Nodes.*
unfoldable pub use Documents.*
pub use Registry.{holds}
pub use Sorting.{IsAscending}
pub use Identity.{IsSettled}
