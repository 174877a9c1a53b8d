-- ===== src/Proxy.antt =====
-- internal/proxy: the frames between the control plane and the agent of a VM, and the connections that
-- carry them.
pub mod Protocol
pub mod Connection
pub mod Pool
pub mod Resolver
mod Examples
