-- ===== src/Dis.antt =====
-- include/csics/lvc/dis: the records of DIS 6 and 7 and their wire format (PDUs.hpp, serde.hpp).
pub mod Pdus
pub mod Encode
pub mod Decode
pub mod RoundTrip
pub mod Sizes
pub mod Codec
pub mod Dispatch
pub mod DeadReckoning
pub mod Radio
mod Tests
