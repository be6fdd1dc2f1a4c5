-- ===== src/Linux.antt =====
-- src/platform/icap_linux_kernel_rpmsg.c: the transport of a Linux kernel driver.
pub mod Transport
pub mod Respond
pub mod Wait
pub mod System
pub mod Find
pub mod Inv
pub mod Moves
pub mod Steps
pub mod Reachable
pub mod Safety
pub mod Notify
pub mod Shutdown
pub mod Link
pub mod Await
