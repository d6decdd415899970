-- ===== src/Proxy.antt =====
-- src/proxy: the cache of resolved names, the count of connections, and how a connection is made.
pub mod DnsCache
pub mod Slots
pub mod Connect
pub mod Pool
pub mod Retry
pub mod Upstream
