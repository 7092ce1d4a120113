-- ===== src/Dtn.antt =====
-- ictp/spray-dtn/dtn.c: a delay-tolerant network by spray and wait.
pub mod State
pub mod Queue
pub mod Handlers
pub mod Calls
pub mod Steps
pub mod Copies
pub mod HandOff
pub mod Delivery
pub mod Lifecycle
pub mod Genuine
pub mod Network
pub mod Example
mod Tests
