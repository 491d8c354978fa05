-- ===== src/Beve.antt =====
-- native/include/glaze_meta.h: the schemas, the Writer and the Reader of the BEVE-Lite format.
pub mod Schema
pub mod Words
pub mod Writer
pub mod Reader
pub mod Codec
pub mod RoundTrip
pub mod Safety
pub mod Views
