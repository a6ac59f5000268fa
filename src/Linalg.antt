-- ===== src/Linalg.antt =====
-- include/csics/linalg: matrices, and complex numbers as pairs.
pub mod Scalar
pub mod Matrix
pub mod Complex
mod Tests
