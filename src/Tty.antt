-- ===== src/Tty.antt =====
-- sys/tty: the console and its font.
pub mod Font
pub mod Console
mod Tests
