-- ===== src/Buffer.antt =====
-- include/csics/Buffer.hpp: views of a run of elements, and the growing buffer.
pub mod Views
pub mod Capacity
pub mod Cells
pub mod Store
mod Tests
