-- ===== src/Gossip.antt =====
-- crates/blockyard-gossip: the member table of a node and the SWIM protocol over it. The network is
-- left out: a message that arrives is an argument, and the messages sent are results.
pub mod Members
pub mod Convergence
pub mod Swim
pub mod Refutation
