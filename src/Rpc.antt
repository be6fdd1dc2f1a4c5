-- ===== src/Rpc.antt =====
-- A call of an application function of include/icap_application.h as a remote function call:
-- `icap_send_msg` on the one core, `icap_parse_msg` on the other, and the wait for the response.
pub mod Received
pub mod Server
pub mod Client
pub mod Call
pub mod Busy
pub mod Kernel
pub mod Kept
pub mod Number
pub mod Features
pub mod Buffer
pub mod Report
pub mod Short
