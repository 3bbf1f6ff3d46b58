-- ===== src/Dns.antt =====
-- src/dns: DNS packets.
pub mod Name
pub mod Header
pub mod Rr
pub mod Ttl
pub mod Query
pub mod Edns
pub mod Builder
pub mod Question
pub mod Variant
pub mod Ecs
