-- ===== src/Tcg.antt =====
-- The TCG Storage part: tokens, command and response buffers, and the devices and sessions that exchange them.
pub mod Types
pub mod Command
pub mod Token
pub mod Response
pub mod RoundTrip
pub mod Device
pub mod Session
pub mod Provision
pub mod Runs
