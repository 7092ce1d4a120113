-- ===== src/Mote.antt =====
-- ictp/mqtt-sn/mqtt-sn.c: the MQTT-SN client of the motes.
pub mod State
pub mod Send
pub mod Requests
pub mod Events
pub mod Steps
pub mod Old
pub mod Application
mod Tests
