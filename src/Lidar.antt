-- ===== src/Lidar.antt =====
-- app/lidar: which work unit covers a building, its points, and the endpoints that serve them.
pub mod Wesm
pub mod Crs
pub mod Ingest
pub mod Extract
pub mod Found
pub mod Hops
pub mod Router
