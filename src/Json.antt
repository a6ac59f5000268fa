-- ===== src/Json.antt =====
-- src/serialization/JSONSerializer.cpp, and how `serialize` of
-- include/csics/serialization/Serializer.hpp drives it over a value.
pub mod Sink
pub mod Write
pub mod Text
pub mod Strings
pub mod Failures
mod Tests
