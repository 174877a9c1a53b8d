-- ===== src/Channels.antt =====
-- internal/channels: what an agent sends to a chat provider goes through a table of outbound jobs.
pub mod Durations
pub mod Outbox
pub mod Delivery
pub mod Dispatcher
pub mod Ingress
mod Examples
