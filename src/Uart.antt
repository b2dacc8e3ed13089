-- ===== src/Uart.antt =====
-- uart/: the framed protocol between the convertor and the device on its serial port.
pub mod Frame
pub mod Receive
pub mod State
pub mod Notify
pub mod Poll
pub mod Send
pub mod Reply
pub mod Parse
pub mod Upload
pub mod Race
pub mod Tasks
pub mod Port
pub mod Recv
mod Examples
