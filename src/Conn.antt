-- ===== src/Conn.antt =====
-- minecraft/conn.go: the Conn of a listener or a dialer, its login and spawn sequence, and its queue
-- of packets for the user.
pub mod Messages
pub mod State
pub mod Packs
pub mod Server
pub mod Client
pub mod Receive
pub mod Logic
pub mod Late
pub mod Stages
pub mod Early
pub mod Admission
pub mod Dispatch
pub mod Events
pub mod Session
pub mod Downloads
pub mod Order
mod Runs
