-- ===== src/Batch.antt =====
-- minecraft/protocol/packet/encoder.go and decoder.go: packets in batches, compressed and encrypted.
pub mod Walk
pub mod Encryption
pub mod Cfb8
pub mod Compression
pub mod Encoder
pub mod Decoder
pub mod RoundTrip
mod Runs
