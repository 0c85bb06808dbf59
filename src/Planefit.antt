-- ===== src/Planefit.antt =====
-- app/planefit: from a cropped point cloud to the measured facets.
pub mod Numpy
pub mod Shapely
pub mod Fit
pub mod Topology
pub mod Clusters
pub mod RoofModel
pub mod Geometry
pub mod Measurement
pub mod Router
