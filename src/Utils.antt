-- ===== src/Utils.antt =====
-- The helpers under src/common/main/utils.
pub mod Bytes
pub mod Pool
pub mod Ipv4
pub mod AreaIp
pub mod Strings
pub mod Metrics
pub mod Counters
