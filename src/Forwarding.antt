-- ===== src/Forwarding.antt =====
-- internal/portforwarding: the interface `PortForwarding`, its guard, the pure Go implementation,
-- the registry of implementations and the test for listening ports.
pub mod Types
pub mod Transport
pub mod Guard
pub mod PureGo
pub mod Registry
