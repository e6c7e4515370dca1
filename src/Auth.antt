-- ===== src/Auth.antt =====
-- crates/blockyard-common/src/auth.rs: the tokens with which clients and nodes authenticate.
pub mod Tokens
pub mod TokenLaws
