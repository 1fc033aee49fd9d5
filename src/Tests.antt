-- ===== src/Tests.antt =====
-- Concrete states, the theorems at them, and runs of the model.
mod Samples
mod Queues
pub mod Busy
mod Steps
mod Calls
mod Input
mod Clock
mod Traps
mod Texts
mod Commands
mod Devices
mod Logs
