-- ===== src/Tools.antt =====
-- The client library of the command-line tools, mqtt-sn-tools/mqtt-sn.c.
pub mod State
pub mod Outcome
pub mod Wire
pub mod Topics
pub mod Frame
pub mod Receive
pub mod Send
pub mod Publish
pub mod Wait
pub mod Acks
mod Tests
pub mod Settings
pub mod Socket
pub mod Encapsulation
