-- ===== src/Egress.antt =====
-- src/egress.rs: the network policy, from the flags to the nftables ruleset.
pub mod Addr
pub mod Spec
pub mod Parse
pub mod Resolve
pub mod Render
