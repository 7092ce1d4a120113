-- ===== src/Programs.antt =====
-- The command-line programs of mqtt-sn-tools.
pub mod Options
pub mod Outcome
pub mod Pub
pub mod Sub
pub mod Bridge
pub mod Dump
pub mod Hosts
