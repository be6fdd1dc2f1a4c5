-- ===== src/Core.antt =====
-- src/icap.c, over any transport.
mod Model
mod Reply
mod Application
mod Device
mod Parse
pub mod Verdict
pub mod Answers
pub mod Typed
pub mod Init
pub mod Request
pub mod Lifecycle
pub mod Deliver
pub use Model.*
unfoldable pub use Reply.*
unfoldable pub use Application.*
unfoldable pub use Device.*
unfoldable pub use Parse.*
