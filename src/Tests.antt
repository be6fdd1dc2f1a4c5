-- ===== src/Tests.antt =====
-- Tests of the definitions, and the theorems at concrete inputs.
mod Data
mod Wire
mod Kernel
mod Examples
mod Calls
mod Threads
mod Channel
mod Reports
mod Masks
mod Silence
mod Net
