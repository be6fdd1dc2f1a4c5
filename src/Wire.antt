-- ===== src/Wire.antt =====
-- What travels between the cores: include/icap.h and src/platform/icap_transport.h.
mod Words
mod Types
mod Codec
mod Audio
pub mod RoundTrip
pub mod Message
pub mod Masks
pub mod Layout
unfoldable pub use Words.*
unfoldable pub use Types.*
unfoldable pub use Codec.*
unfoldable pub use Audio.*
