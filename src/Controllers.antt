-- ===== src/Controllers.antt =====
-- internal/controller/networking: the controllers of the two resources.
pub mod Ports
pub mod Cluster
pub mod Forwarder
pub mod Objects
pub mod Server
pub mod PortForwarding
pub mod Proxy
