-- ===== src/Address/Cache.antt =====
-- app/resolve_address/cache.py: the cache in memory with a time to live for each entry. The clock is
-- read by the caller of an operation: `now` is what `time.monotonic()` returns inside it. The lock makes
-- the operations of one cache a sequence.
pub mod History
pub mod Live
use rooftrace.Prelude.{ℕ, ◌*◌, Option, none, some, List, [], ◌∷◌, String, str_eq, if◌then◌else◌}
use rooftrace.Float.{Float, ◌⊕◌}

abbrev pub geocode_ttl : ℕ
geocode_ttl = 7 * 24 * 3600

abbrev pub parcel_ttl : ℕ
parcel_ttl = 7 * 24 * 3600

abbrev pub footprint_ttl : ℕ
footprint_ttl = 30 * 24 * 3600

-- `self._store`: key -> (value, expiry)
abbrev pub Entries : Type 0 → Type 0 → Type 0
Entries F V = List (String × (V × F))

module _ {F V : Type 0} where
  -- `self._store.get(key)`
  unfoldable pub entry : Entries F V → String → Option (V × F)
  entry [] key = none
  entry ((k, e) ∷ store) key = let rest = entry store key in if str_eq k key then some e else rest

  -- `self._store[key] = ...`
  unfoldable pub insert : Entries F V → String → V × F → Entries F V
  insert [] key new = (key, new) ∷ []
  insert ((k, e) ∷ store) key new =
      let rest = insert store key new in if str_eq k key then (k, new) ∷ store else (k, e) ∷ rest

  -- `del self._store[key]`: a dict has a key once.
  unfoldable pub delete : Entries F V → String → Entries F V
  delete [] key = []
  delete ((k, e) ∷ store) key =
      let rest = delete store key in if str_eq k key then rest else (k, e) ∷ rest

  unfoldable pub clear : Entries F V → Entries F V
  clear store = []

module _ {F : Type 0} ⦃fl : Float F⦄ {V : Type 0} where
  unfoldable pub get : F → Entries F V → String → Option V × Entries F V
  unfolding entry delete
  get now store key = elim (entry store key) [
    | none ↦ (none, store)
    | some (value, expiry) ↦
        if fl.lt expiry now then (none, delete store key) else (some value, store)
  ]

  unfoldable pub set : F → Entries F V → String → V → F → Entries F V
  unfolding insert
  set now store key value ttl = insert store key (value, now ⊕ ttl)
