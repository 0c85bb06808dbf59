-- ===== src/Lidar/Hops.antt =====
-- What `ingest_lidar` of app/lidar/ingest.py returns, and when it writes to the store.
use rooftrace.Prelude.{
  ℕ, ◌<◌, ◌≡◌, refl, true, Option, none, some, List, [], ◌∷◌, arith, length, length-map, ◌==◌,
  String, Result, ok, Raised, >>=-eq-ok, Bool-cases, inl, inr, ◌⊎◌, ap,
}
use mathlib.Core.Path.{subst}
use rooftrace.Float.{Float}
use rooftrace.Contracts.{available, missing}
use rooftrace.Planefit.Shapely.{Pyproj}
use rooftrace.Lidar.Wesm.{WorkUnit}
use rooftrace.Lidar.Crs.{utm_epsg_for}
use rooftrace.Lidar.Ingest.{
  LidarPoint, CroppedCloud, IngestOutcome, Arrays, IngestCalls, extract_building_points,
  reproject_points, find_cloud, cache_points, classify_and_cache, cache_key, with_cloud,
  ingest_covered, ingest_covering, ingest_lidar, urls_of,
}
use rooftrace.Lidar.Found.{IsNowhere, IsCropped, find_cloud-IsCropped}

ok_inj : {A : Type 0} {a b : A} → ◌≡◌ {A = Result Raised A} (ok a) (ok b) → a ≡ b
ok_inj h = ground arith

none_left : {A : Type 0} (xs : List A) → (length xs == 0) ≡ true → xs ≡ []
none_left [] h = refl
none_left (x ∷ xs) h = absurd (ground (arith, h))

module _ {F S : Type 0} ⦃fl : Float F⦄ (np : Arrays F) (pj : Pyproj F)
    (calls : IngestCalls F S) where
  -- The URLs of the index: none where it is not to be had
  abbrev pub urls : List String
  urls = (urls_of np pj calls (calls.resolve_urls calls.bbox)).0

  -- No covering unit, no resource for any of them, or a cloud without a point of the building.
  abbrev pub IsReason : List (WorkUnit F) → IngestOutcome F → Type 0
  IsReason covering outcome =
      ((outcome.reason ≡ some "no_coverage") × (outcome.work_unit ≡ none) × (covering ≡ []))
      ⊎ ((first : WorkUnit F) × (others : List (WorkUnit F)) × (covering ≡ first ∷ others)
          × (((outcome.reason ≡ some "no_ept_resource")
                × (outcome.work_unit ≡ some first)
                × IsNowhere np pj calls first covering urls)
              ⊎ ((w : WorkUnit F) × (cloud : CroppedCloud F) × (outcome.reason
                    ≡ some "no_building_points")
                  × (outcome.work_unit ≡ some w)
                  × IsCropped np pj calls first covering urls w cloud
                  × ((extract_building_points np cloud.points).0 ≡ []))))

  -- Nothing was found, for the reason given, and nothing was written.
  abbrev pub IsMissing : S → List (WorkUnit F) → IngestOutcome F × S → Type 0
  IsMissing store covering (outcome, store') =
      (outcome.status ≡ missing)
      × (outcome.point_array_ref ≡ none)
      × (outcome.point_count ≡ none)
      × (store' ≡ store)
      × IsReason covering outcome

  -- The building points of the cloud, some, and just they were written, reprojected from the cloud's
  -- system to the zone, under the key of the answer.
  abbrev pub IsWritten : S → WorkUnit F → CroppedCloud F → ℕ → IngestOutcome F × S → Type 0
  IsWritten store w cloud utm (outcome, store') =
      let kept = (extract_building_points np cloud.points).0 in
      let utm_pts = reproject_points np pj kept cloud.src_epsg utm in
      (outcome.status ≡ available)
      × (outcome.point_array_ref ≡ some (cache_key np pj calls))
      × (outcome.point_count ≡ some (length kept))
      × (0 < length kept)
      × (outcome.work_unit ≡ some w)
      × (outcome.utm_zone ≡ some utm)
      × (calls.put_bytes store (cache_key np pj calls) (calls.npy_bytes utm_pts) ≡ ok store')

  abbrev pub IsAvailable : S → List (WorkUnit F) → IngestOutcome F × S → Type 0
  IsAvailable store covering r =
      (first : WorkUnit F) × (others : List (WorkUnit F)) × (covering ≡ first ∷ others)
      × ((w : WorkUnit F) × (cloud : CroppedCloud F) × (utm : ℕ) × IsCropped np pj calls first
            covering urls w cloud
          × (utm_epsg_for calls.centroid.0 calls.centroid.1 ≡ ok utm)
          × IsWritten store w cloud utm r)

  length-reproject_points :
      (points : List (LidarPoint F)) (src dst : ℕ)
      → length (reproject_points np pj points src dst) ≡ length points
  unfolding reproject_points
  length-reproject_points points src dst = elim (Bool-cases (src == dst)) [
    | inl e ↦ rw e refl
    | inr e ↦ rw e (length-map _ points)
  ]

  cache_points-IsWritten :
      (store : S) (w : WorkUnit F) (cloud : CroppedCloud F) (warnings : List String)
      (r : IngestOutcome F × S)
      → 0 < length (extract_building_points np cloud.points).0
      → cache_points np pj calls store w cloud.src_epsg
          (extract_building_points np cloud.points).0
          warnings
        ≡ ok r
      → (utm : ℕ) × (utm_epsg_for calls.centroid.0 calls.centroid.1 ≡ ok utm)
        × IsWritten store w cloud utm r
  unfolding cache_points
  cache_points-IsWritten store w cloud warnings r pos h =
      let kept = (extract_building_points np cloud.points).0 in
      let (utm, zone, h1) = >>=-eq-ok (utm_epsg_for calls.centroid.0 calls.centroid.1) _ h in
      let utm_pts = reproject_points np pj kept cloud.src_epsg utm in
      let (store', put, h2) =
        >>=-eq-ok (calls.put_bytes store (cache_key np pj calls) (calls.npy_bytes utm_pts)) _ h1 in
      let counted = length-reproject_points kept cloud.src_epsg utm in
      (
        utm,
        zone,
        subst (IsWritten store w cloud utm) (ok_inj h2)
            (refl, refl, ap some counted, pos, refl, refl, put),
      )

  module _ (first : WorkUnit F) (others : List (WorkUnit F)) where
    abbrev Outcome : S → IngestOutcome F × S → Type 0
    Outcome store r = IsMissing store (first ∷ others) r ⊎ IsAvailable store (first ∷ others) r

    classify_and_cache-Outcome :
        (store : S) (cloud : CroppedCloud F) (w : WorkUnit F) (warned : List String)
        (r : IngestOutcome F × S)
        → IsCropped np pj calls first (first ∷ others) urls w cloud
        → classify_and_cache np pj calls store cloud w warned ≡ ok r
        → Outcome store r
    unfolding classify_and_cache
    classify_and_cache-Outcome store cloud w warned r cropped h =
        let kept = (extract_building_points np cloud.points).0 in
        elim (Bool-cases (length kept == 0)) [
          | inl e ↦
              let gone = none_left kept e in
              inl (
                subst (IsMissing store (first ∷ others)) (ok_inj (rw e at h)) (
                  refl,
                  refl,
                  refl,
                  refl,
                  inr (first, others, refl, inr (w, cloud, refl, refl, cropped, gone)),
                ))
          | inr e ↦
              let (utm, zone, written) =
                cache_points-IsWritten store w cloud _ r (ground arith) (rw e at h) in
              inr (first, others, refl, (w, cloud, utm, cropped, zone, written))
        ]

    covered-Outcome :
        (store : S) (warnings : List String) (r : IngestOutcome F × S)
        (found : Option (CroppedCloud F × WorkUnit F))
        → find_cloud np pj calls first (first ∷ others) urls ≡ ok found
        → with_cloud np pj calls store first warnings found ≡ ok r
        → Outcome store r
    unfolding with_cloud
    covered-Outcome store warnings r found searched h =
        elim (find_cloud-IsCropped np pj calls first (first ∷ others) urls found searched) [
          | inl (nothing, nowhere) ↦ inl (
              subst (IsMissing store (first ∷ others)) (ok_inj (rw (nothing, with_cloud) at h))
                (refl, refl, refl, refl, inr (first, others, refl, inl (refl, refl, nowhere))))
          | inr (w, cloud, some_found, cropped) ↦
              classify_and_cache-Outcome store cloud w warnings r cropped
                (rw (some_found, with_cloud) at h)
        ]

  covering-Outcome :
      (store : S) (covering : List (WorkUnit F)) (r : IngestOutcome F × S)
      → ingest_covering np pj calls store covering ≡ ok r
      → IsMissing store covering r ⊎ IsAvailable store covering r
  unfolding ingest_covering ingest_covered
  covering-Outcome store [] r h =
      inl (subst (IsMissing store []) (ok_inj h) (refl, refl, refl, refl, inl (refl, refl, refl)))
  covering-Outcome store (first ∷ others) r h =
      let warnings = (urls_of np pj calls (calls.resolve_urls calls.bbox)).1 in
      let (found, searched, h1) =
        >>=-eq-ok (find_cloud np pj calls first (first ∷ others) urls) _ h in
      covered-Outcome first others store warnings r found searched h1

  -- Where `ingest_lidar` returns, with the work units that the index query gives for the polygon's box:
  -- either LiDAR is missing, with no reference and no count, the store as it was, and the reason that no
  -- unit covers the box, that neither a URL of the index nor a unit has a resource, or that the cropped
  -- cloud has no point of a building. Or it is available: the store holds the building points of the
  -- cropped cloud, at least one, reprojected from the cloud's system to the UTM zone of the centroid,
  -- under the returned reference, with their number and the cloud's unit. The cropped cloud is that of
  -- the first URL, asked for with the first unit, or else of the first unit by name, that has a resource.
  pub ingest_lidar-Outcome :
      (store : S) (r : IngestOutcome F × S)
      → ingest_lidar np pj calls store ≡ ok r
      → IsMissing store (calls.query calls.bbox) r ⊎ IsAvailable store (calls.query calls.bbox) r
  unfolding ingest_lidar
  ingest_lidar-Outcome store r h = covering-Outcome store (calls.query calls.bbox) r h
