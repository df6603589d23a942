-- ===== src/Types.antt =====
-- The domain values of beryl-types that the components share.
pub mod Layout
pub mod Values
pub mod Watermark
