-- ===== src/Tracer.antt =====
-- The example tracer, src/tracer.c, which writes what it is given as text.
pub mod Output
pub mod Digits
pub mod Attributes
pub mod Integers
pub mod Enums
pub mod Context
pub mod Values
pub mod Printing
pub mod Describing
mod Examples
