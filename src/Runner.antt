-- ===== src/Runner.antt =====
-- src/main.rs and build.rs: the program that starts the servers, measures them and stops them. What
-- it asks of the system is a log of operations, and the system's answers are an argument.
pub mod System
pub mod Servers
pub mod Bench
pub mod Failure
pub mod Powersave
pub mod Monitor
pub mod Processes
pub mod Success
mod Tests
