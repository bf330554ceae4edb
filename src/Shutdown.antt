-- ===== src/Shutdown.antt =====
-- The main functions of asio/echo: threads that run until `stop` is set or a signal comes, and the thread that stops
-- and joins them.
pub mod Rounds
pub mod Client
pub mod Server
pub mod Listening
mod Tests
