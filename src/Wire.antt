-- ===== src/Wire.antt =====
-- The wire level of internal/pool: big-endian words (encoding/binary) and write_buffer.go.
-- The framing theorems are in Wire/Framing.
pub mod Words
pub mod Buffer
pub mod Framing
