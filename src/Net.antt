-- ===== src/Net.antt =====
-- src/net.rs: the network interfaces, the printing of their addresses, and `ping`.
pub mod Address
pub mod Stack
pub mod Parse
pub mod Answers
mod Tests
