-- ===== src/Dis/RoundTrip.antt =====
-- What the writers of serde.hpp wrote, its readers read back.
pub mod Records
pub mod EntityState
pub mod Emission
pub mod TrackJams
