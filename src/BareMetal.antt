-- ===== src/BareMetal.antt =====
-- src/platform/icap_bm_rpmsg-lite.c: the transport over rpmsg-lite on bare metal.
pub mod Transport
pub mod Fifo
pub mod Loop
pub mod Wait
pub mod Keeps
pub mod Sound
pub mod Deliver
pub mod Unanswered
pub mod Ends
pub mod Silence
pub mod Await
pub mod Eventually
pub mod Sends
pub mod Rejects
pub mod Stale
pub mod Restart
pub mod Copied
