-- ===== src/Address.antt =====
-- app/resolve_address: the resolver of an address.
pub mod Cache
pub mod Quadkey
pub mod Json
pub mod Nominatim
pub mod Regrid
pub mod Dataset
pub mod Footprints
pub mod Lookup
pub mod Resolve
pub mod Http
