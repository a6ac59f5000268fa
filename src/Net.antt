-- ===== src/Net.antt =====
-- include/csics/io/net: what an endpoint is told to connect to.
pub mod Uri
mod Tests
