-- ===== src/Lib.antt =====
-- A model of the sidecar of RoofTrace (sidecar/app, Python) and proofs about it.
--
-- The sidecar serves the stages of a pipeline that measures a roof. The stages that are modelled:
--   * a LiDAR stage crops a public point cloud to a building, isolates the points of its roof, brings
--     them to the local UTM zone, and caches them under a key (sidecar/app/lidar);
--   * the plane-fit stage reads such an array, peels planes off it by RANSAC, merges planes that are
--     nearly coplanar, partitions the roof's outline among them, and returns facets with pitch, area
--     and confidence (sidecar/app/planefit);
--   * the outline stage refines the outline of a roof by segmenting an image tile
--     (sidecar/app/outline);
--   * the checks at boot refuse a configuration that lacks what a stage needs
--     (sidecar/app/boot_checks.py);
--   * the resolver of addresses looks up a location, a parcel and building footprints, and keeps what
--     it found in caches with a time to live (sidecar/app/resolve_address);
--   * a validation harness scores detections against a ground truth (sidecar/validation/metrics.py);
--   * the stages share the storage of blobs by key (sidecar/app/storage.py), the version and bearer
--     gates (sidecar/app/pipeline_utils.py, sidecar/app/auth.py) and the contract with Rails
--     (sidecar/contracts/pipeline.py).
--
-- The files, and what they model:
--   Prelude, Prelude/*      shared: tests on numbers, lists, results of code that may raise, texts and
--                           the exceptions (`Raised`). No code of the repository.
--   Float                   Python's floats as an abstract type with the operations the code uses, and
--                           the order laws that hold without NaN.
--   Contracts               contracts/pipeline.py: the entities; `new_facet` and `new_measurement` are
--                           pydantic's constructors with their constraints.
--   Pipeline, Pipeline/Auth pipeline_utils.py (check_pipeline_version) and auth.py (require_bearer).
--   Storage, Storage/Confinement
--                           storage.py: get_bytes, get_bytes_capped, put_bytes over a list of files or
--                           a bucket.
--   Planefit/Numpy, Planefit/Shapely
--                           the calls of numpy, shapely and pyproj, which are parameters everywhere.
--   Planefit/Fit, Fit/Peel, Fit/Ransac
--                           plane_fit.py: `attempt` is one round of the loop of fit_planes, `peel` the
--                           loop; the RANSAC loop is `ransac_loop`.
--   Planefit/Topology, Topology/Cover, Topology/Merge
--                           topology.py: `merge_step` is one round of `while changed`.
--   Planefit/Clusters, Clusters/*
--                           _support_clusters of roof_model.py: the union-find with path halving over
--                           the list `parent`, which is passed along.
--   Planefit/RoofModel, RoofModel/*
--                           the rest of roof_model.py: Support, Seams and Envelope hold the geometric
--                           helpers, Build the three steps of build_roof_model, Built the proofs.
--   Planefit/Geometry, Planefit/Measurement
--                           geometry.py: facets in WGS84; assemble_measurement and the totals.
--   Planefit/Router, Router/Outcomes
--                           router.py: the endpoints, their handlers as functions on `Raised`.
--   Lidar/Wesm, Lidar/Crs, Lidar/Ingest, Lidar/Extract, Lidar/Found, Lidar/Hops,
--   Lidar/Router
--                           wesm.py, crs.py, ingest.py and router.py of app/lidar.
--   Address/Cache, Cache/History, Cache/Live
--                           resolve_address/cache.py: an operation takes the time that the clock shows.
--   Address/Json            the values of json.loads. No code of the repository.
--   Address/Nominatim, Address/Regrid
--                           nominatim.py and regrid.py: a function takes the answer to its request.
--   Address/Dataset, Dataset/Index
--                           ms_footprints.py: `parse_dataset_index` is _parse_dataset_index and
--                           `resolve_tile_url` is _resolve_tile_url with the index at hand.
--   Address/Footprints, Footprints/*
--                           the rest of ms_footprints.py: fetch_footprints.
--   Address/Lookup, Lookup/Kept
--                           service.py: the three lookups of resolve, each behind its cache.
--   Address/Resolve, Resolve/*
--                           the rest of service.py (resolve), and router.py.
--   Address/Http, Http/Degraded
--                           the clients that resolve calls, made of the modules above.
--   Address/Quadkey         resolve_address/ms_footprints.py: the key of a tile, at any zoom.
--   Validation, Validation/Matching
--                           validation/metrics.py: precision_recall_f1; `class_score` is the body of its
--                           loop over the labels, with the counts as numbers.
--   Boot, Boot/Flags, Boot/Verified
--                           flags.py and boot_checks.py: the environment is a function from names.
--   Outline, Outline/*      outline/router.py and outline/segmenter.py: a mask is a function of row and
--                           column with its sides; Masks/* the overlap and the erosion, Runs/* the
--                           strips, Polygons the conversions, Segmenter the backends.
--   Examples, Examples/*    small stand-ins for the parameters, and the theorems applied to them.
--
-- Correspondence. A function that may raise returns `Result Raised`; an `except` clause is a function
-- on `Raised`; a store that is written is passed along and returned. Loops over lists are structural
-- recursion. Three loops run on fuel: the peeling loop of fit_planes, which gets one round more than
-- the cloud has points (every accepted plane takes three points out); the merge loop, which gets as many
-- rounds as there are planes (every merge leaves one less); and `find`, which gets one round more than
-- there are pairs (a union deepens a tree by at most one). The RANSAC loop counts down its
-- `max_iterations`.
--
-- Not modelled: the arithmetic of floats, and what numpy, shapely, pyproj, boto3 and PDAL compute;
-- logs; threads; symbolic links in the storage root; the validation that FastAPI makes of a
-- request; the tile of a position, which takes a logarithm. Capture fusion, imagery, photo projection,
-- the overlay points and the reports of the validation harness, and the Rails, iOS and viewer parts
-- of the repository, are not part of this development.
pub mod Prelude
pub mod Float
pub mod Contracts
pub mod Pipeline
pub mod Storage
pub mod Boot
pub mod Outline
pub mod Address
pub mod Validation
pub mod Planefit
pub mod Lidar
pub mod Examples
