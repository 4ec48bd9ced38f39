-- ===== src/Libkern.antt =====
-- sys/libkern: the bitmap and the string routines.
pub mod Bitmap
pub mod Memory
pub mod String
