-- ===== src/Domain/Codec.antt =====
-- The JSON form of outputs, blocks and messages, and the way back.
pub mod Outputs
pub mod Blocks
pub mod Transcript
pub mod RoundTrip
