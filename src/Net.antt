-- ===== src/Net.antt =====
-- The folder net/: what the program does on the network.
pub mod Http
pub mod Upload
pub mod Clock
pub mod Detect
pub mod Wifi
pub mod Tcp
mod Examples
