-- ===== src/Packet.antt =====
-- minecraft/protocol/packet: the packets.
pub mod Header
pub mod Kind
pub mod Pool
pub mod Login
pub mod Spawning
pub mod PackInfo
pub mod PackTransfer
pub mod Movement
pub mod Prediction
pub mod Actors
pub mod Interaction
pub mod Blocks
pub mod BlockChanges
pub mod Containers
pub mod Screen
pub mod Forms
pub mod World
pub mod Transfers
