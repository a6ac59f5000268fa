-- ===== src/Dis/Decode.antt =====
-- The readers of serde.hpp.
mod Records
mod EntityState
mod Emission
unfoldable pub use Records.*
unfoldable pub use EntityState.*
unfoldable pub use Emission.*
