-- ===== src/Timers.antt =====
-- asio/basic/03, 04 and 05: programs whose timers start themselves again until a count is reached.
pub mod Strand
pub mod Termination
pub mod Captures
mod Tests
