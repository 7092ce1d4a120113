-- ===== src/Demo.antt =====
-- ictp/mqtt/mqtt-demo.c: a mote that publishes its state to an MQTT broker, and listens for commands.
pub mod State
pub mod Config
pub mod Message
pub mod Handler
pub mod Machine
pub mod Run
pub mod Commands
pub mod Address
mod Tests
