-- ===== src/Event.antt =====
-- internal/event/event.go: the event model. Defs has the data and the operations of an Event, Access
-- has FieldKey and ApplyField, Env the expression environment; the other children prove.
mod Defs
mod Access
mod Env
pub mod Decoding
unfoldable pub use Defs.*
unfoldable pub use Access.*
unfoldable pub use Env.*
