-- ===== src/Udp.antt =====
-- ictp/udp: a mote that sends its readings by UDP, and the server that they go to.
pub mod Client
pub mod Server
pub mod Laws
pub mod Counted
mod Tests
