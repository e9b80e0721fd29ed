-- ===== src/Wire.antt =====
-- native/wire: the framing of TRANSAQ packets and the encodings of their fields.
pub mod Words
pub mod Writer
pub mod Reader
pub mod Packed
pub mod Fields
pub mod Cursor
pub mod Frame
mod Runs
