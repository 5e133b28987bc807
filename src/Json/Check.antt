-- ===== src/Json/Check.antt =====
-- What `isJsonValue` accepts: finite JSON trees, no part of which is reached twice.
pub mod Fuel
pub mod Exact
pub mod Shared
