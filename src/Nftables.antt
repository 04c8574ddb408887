-- ===== src/Nftables.antt =====
-- internal/portforwarding/nftables: forwarding by rules of the kernel's packet filter.
pub mod Userdata
pub mod Expr
pub mod Tables
pub mod ReadWrite
pub mod Mutation
pub mod NfTables
pub mod Condition
