-- ===== src/Tool.antt =====
-- tool/: intrusive lists, buffer factories, message queues.
pub mod List
pub mod BufFactory
pub mod FreeList
pub mod Pool
pub mod Mailbox
pub mod KeyFile
pub mod Thread
mod Examples
