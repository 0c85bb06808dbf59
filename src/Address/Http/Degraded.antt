-- ===== src/Address/Http/Degraded.antt =====
-- The resolver when Regrid fails (app/resolve_address/service.py and regrid.py).
use rooftrace.Prelude.{
  ◌≡◌, refl, Bool, true, false, ◌&&◌, ◌||◌, Option, none, some, [], ◌∷◌, String, str_eq, Result, ok,
  err, Raised, other, arith, ◌==◌, Bool-cases, Result-cases, inl, inr, ◌⊎◌, ap, eq_iff, show,
  message, f_string,
}
use rooftrace.Float.{Float}
use rooftrace.Planefit.Shapely.{Shapely}
use rooftrace.Address.Nominatim.{Sent, replied, request_error, timed_out, GeocodedLocation}
use rooftrace.Address.Regrid.{RegridParcel, parcel_answer, fetch_parcel}
use rooftrace.Address.Footprints.{Shapes}
use rooftrace.Address.Cache.{entry}
use rooftrace.Address.Cache.Live.{get_cases}
use rooftrace.Address.Lookup.{
  State, Formats, Clock, FoundParcel, parcel_fetched, find_parcel, with_parcels,
}
use rooftrace.Address.Http.{Http, is_given, clients_of}

abbrev is_ok : {A : Type 0} → Result Raised A → Bool
is_ok (ok a) = true
is_ok (err e) = false

-- An answer with status 200 that is JSON
abbrev pub is_answered : {F : Type 0} → Sent F → Bool
is_answered (replied resp) = (resp.status_code == 200) && is_ok resp.json
is_answered (request_error name) = false
is_answered (timed_out name) = false

-- There is no key, or it is empty.
abbrev pub IsKeyless : Option String → Type 0
IsKeyless key = (key ≡ none) ⊎ (key ≡ some "")

-- What the RegridError of such an answer says
abbrev pub IsRefusalText : {F : Type 0} → Sent F → String → Type 0
IsRefusalText (timed_out name) m = m ≡ f_string ("Regrid request timed out (" ∷ name ∷ ")" ∷ [])
IsRefusalText (request_error name) m = m ≡ f_string ("Regrid request failed (" ∷ name ∷ ")" ∷ [])
IsRefusalText (replied resp) m =
    (((resp.status_code == 401 || resp.status_code == 403) ≡ true)
      × (m ≡ f_string ("Regrid authentication failed (HTTP " ∷ show resp.status_code ∷ ")" ∷ [])))
    ⊎ (((resp.status_code == 200) ≡ false)
        × (m ≡ f_string ("Regrid returned HTTP " ∷ show resp.status_code ∷ [])))
    ⊎ ((e : Raised) × (resp.json ≡ err e)
        × (m ≡ f_string ("Regrid returned invalid JSON: " ∷ message e ∷ [])))

keyless-is_given : (key : Option String) → IsKeyless key → is_given key ≡ false
keyless-is_given key (inl e) = rw e refl
keyless-is_given key (inr e) = rw e refl

module _ {F : Type 0} ⦃fl : Float F⦄ where
  parcel_answer-refused :
      (sent : Sent F)
      → is_answered sent ≡ false
      → (m : String) × IsRefusalText sent m × (parcel_answer sent ≡ err (other "RegridError" m))
  unfolding parcel_answer
  parcel_answer-refused (timed_out name) h = (_, refl, refl)
  parcel_answer-refused (request_error name) h = (_, refl, refl)
  parcel_answer-refused (replied resp) h =
      elim (Bool-cases (resp.status_code == 401 || resp.status_code == 403)) [
        | inl refused ↦ (_, inl (refused, refl), rw refused refl)
        | inr tried ↦ elim (Bool-cases (resp.status_code == 200)) [
          | inl found ↦ elim (Result-cases resp.json) [
            | inl (e, unread) ↦ (_, inr (inr (e, unread, refl)), rw (tried, found, unread) refl)
            | inr (value, read) ↦ absurd (ground (arith, found, read))
          ]
          | inr missing ↦ (_, inr (inl (missing, refl)), rw (tried, missing) refl)
        ]
      ]

  -- Either nothing is asked, or the answer to the key is refused with its text.
  abbrev Degrades :
      Option String → (String → Sent F) → Result Raised (Option (RegridParcel F)) → Type 0
  Degrades key send r =
      (IsKeyless key × (r ≡ ok none))
      ⊎ ((token : String) × (m : String) × (key ≡ some token)
          × IsRefusalText (send token) m
          × (r ≡ err (other "RegridError" m)))

  fetch_parcel-Degrades :
      (key : Option String) (send : String → Sent F)
      → ((token : String) → is_answered (send token) ≡ false)
      → Degrades key send (fetch_parcel key send)
  unfolding fetch_parcel
  fetch_parcel-Degrades none send h = inl (inl refl, refl)
  fetch_parcel-Degrades (some key) send h = elim (Bool-cases (str_eq key "")) [
    | inl e ↦ inl (inr (ap some ((eq_iff key "").0 e)), rw e refl)
    | inr e ↦
        let (m, said, refused) = parcel_answer-refused (send key) (h key) in
        inr (key, m, refl, said, rw e refused)
  ]

  -- The warning: that there is no key, or the text of the RegridError
  abbrev pub IsReason : Http F → GeocodedLocation F → String → Type 0
  IsReason http geo why =
      (IsKeyless http.regrid_api_key × (why ≡ "parcel_unavailable: REGRID_API_KEY not set"))
      ⊎ ((token : String) × (m : String) × (http.regrid_api_key ≡ some token)
          × IsRefusalText (http.point geo.lat geo.lon token) m
          × (why ≡ f_string ("parcel_unavailable: " ∷ m ∷ [])))

  -- A fresh entry of the cache without a warning, or no parcel and one warning with its reason.
  abbrev pub IsKeptOrMissed :
      Http F → Formats F → Clock F → State F → GeocodedLocation F → FoundParcel F → Type 0
  IsKeptOrMissed http formats clock st geo found =
      ((parcel : RegridParcel F) × (expiry : F) × (entry st.parcels
            (formats.parcel_key geo.lat geo.lon)
          ≡ some (parcel, expiry))
        × (fl.lt expiry clock.at_parcel_get ≡ false)
        × (found.parcel ≡ some parcel)
        × (found.cached ≡ true)
        × (found.warnings ≡ []))
      ⊎ ((found.parcel ≡ none)
          × (found.cached ≡ false)
          × ((why : String) × (found.warnings ≡ why ∷ []) × IsReason http geo why))

  parcel_fetched-missed :
      {G : Type 0} (sh : Shapely F G) (shapes : Shapes F G) (is_shape_error : String → Bool)
      (http : Http F) (formats : Formats F) (clock : Clock F) (st : State F)
      (geo : GeocodedLocation F) (key : String) (reply : Result Raised (Option (RegridParcel F)))
      → Degrades http.regrid_api_key (http.point geo.lat geo.lon) reply
      → (found : FoundParcel F) × (st' : State F) × (parcel_fetched formats
            (clients_of sh shapes is_shape_error http)
            clock
            st
            key
            reply
          ≡ (ok found, st'))
        × (found.parcel ≡ none)
        × (found.cached ≡ false)
        × ((why : String) × (found.warnings ≡ why ∷ []) × IsReason http geo why)
  unfolding clients_of
  parcel_fetched-missed sh shapes is_shape_error http formats clock st geo key reply
        (inl (keyless, e)) =
      let ungiven = keyless-is_given http.regrid_api_key keyless in
      rw (e, ungiven) (_, st, refl, refl, refl, (_, refl, inl (keyless, refl)))
  parcel_fetched-missed sh shapes is_shape_error http formats clock st geo key reply
        (inr (token, m, given, said, e)) =
      rw e (_, st, refl, refl, refl, (_, refl, inr (token, m, given, said, refl)))

  -- Where Regrid does not answer with status 200 and JSON, whatever token it is asked with, the lookup of
  -- a parcel raises nothing. Either the parcel is that of the cache's entry for the position, which has
  -- not expired, and is marked as cached, without a warning; or there is none and one warning, which says
  -- that no key is set, where none is, and otherwise has the RegridError's text for the answer to the
  -- key: a timeout, a failed request, status 401 or 403, another status than 200, or JSON that cannot be
  -- read.
  pub find_parcel-degrades :
      {G : Type 0} (sh : Shapely F G) (shapes : Shapes F G) (is_shape_error : String → Bool)
      (http : Http F) (formats : Formats F) (clock : Clock F) (st : State F)
      (geo : GeocodedLocation F)
      → ((token : String) → is_answered (http.point geo.lat geo.lon token) ≡ false)
      → (found : FoundParcel F) × (st' : State F) × (find_parcel formats
            (clients_of sh shapes is_shape_error http)
            clock
            st
            geo
          ≡ (ok found, st'))
        × IsKeptOrMissed http formats clock st geo found
  unfolding find_parcel clients_of
  find_parcel-degrades sh shapes is_shape_error http formats clock st geo h =
      let key = formats.parcel_key geo.lat geo.lon in
      elim (get_cases clock.at_parcel_get st.parcels key) [
        | inl (store', missed) ↦
            let (found, st', same, absent, uncached, warned) =
              parcel_fetched-missed sh shapes is_shape_error http formats clock
                (with_parcels st store') geo key
                (fetch_parcel http.regrid_api_key (http.point geo.lat geo.lon))
                (fetch_parcel-Degrades http.regrid_api_key (http.point geo.lat geo.lon) h) in
            rw missed (found, st', same, inr (absent, uncached, warned))
        | inr (value, expiry, hit, there, fresh) ↦
            rw hit (_, _, refl, inl (value, expiry, there, fresh, refl, refl, refl))
      ]
