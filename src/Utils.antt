-- ===== src/Utils.antt =====
-- The utils package.
pub mod Receive
pub mod Frame
pub mod Job
pub mod Ping
pub mod Subscribers
