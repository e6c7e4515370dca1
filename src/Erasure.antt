-- ===== src/Erasure.antt =====
-- The erasure code of crates/blockyard-client/src/ec.rs, and the fragments that
-- crates/blockyard-ublk/src/ec_write_pipeline.rs writes and block_handler.rs reads. The crate
-- reed_solomon_erasure is an argument.
pub mod Shards
pub mod Codec
pub mod Bytes
pub mod Joined
pub mod RoundTrip
pub mod Stripe
pub mod StripeRead
pub mod Pipeline
pub mod Unaligned
