-- ===== src/Address/Cache/Live.antt =====
-- What a cache of app/resolve_address answers while no entry has expired.
use rooftrace.Prelude.{
  ◌≡◌, refl, false, none, some, String, arith, Option-cases, Bool-cases, inl, inr, ◌⊎◌, sym,
}
use text.Mathlib.TextPositions.{eq_refl}
use rooftrace.Float.{Float, ◌⊕◌}
use rooftrace.Address.Cache.{Entries, entry, delete, get, set}
use rooftrace.Address.Cache.History.{entry-insert}

module _ {F : Type 0} ⦃fl : Float F⦄ {V : Type 0} where
  -- No entry has expired by `now`.
  abbrev pub IsLive : F → Entries F V → Type 0
  IsLive now store =
      (key : String) (value : V) (expiry : F)
      → entry store key ≡ some (value, expiry)
      → fl.lt expiry now ≡ false

  pub get-entry :
      (now : F) (store : Entries F V) (key : String) (value : V) (expiry : F)
      → entry store key ≡ some (value, expiry)
      → fl.lt expiry now ≡ false
      → get now store key ≡ (some value, store)
  unfolding get
  get-entry now store key value expiry h fresh = rw (h, fresh, get) refl

  -- A hit is an entry, and leaves the store alone.
  pub get_cases :
      (now : F) (store : Entries F V) (key : String)
      → ((store' : Entries F V) × (get now store key ≡ (none, store')))
        ⊎ ((value : V) × (expiry : F) × (get now store key ≡ (some value, store))
            × (entry store key ≡ some (value, expiry))
            × (fl.lt expiry now ≡ false))
  unfolding get
  get_cases now store key = elim (Option-cases (entry store key)) [
    | inl absent ↦ inl (store, rw (absent, get) refl)
    | inr ((value, expiry), found) ↦ elim (Bool-cases (fl.lt expiry now)) [
      | inl expired ↦ inl (delete store key, rw (found, expired, get) refl)
      | inr fresh ↦ inr (value, expiry, rw (found, fresh, get) refl, found, fresh)
    ]
  ]

  pub entry-set :
      (now : F) (store : Entries F V) (key : String) (value : V) (ttl : F)
      → (expiry : F) × (entry (set now store key value ttl) key ≡ some (value, expiry))
  unfolding set
  entry-set now store key value ttl =
      (now ⊕ ttl, ground (arith, entry-insert store key key (value, now ⊕ ttl), eq_refl key))

  -- The same entry, of a store and a value that go by other names
  pub entry_along :
      (store store' : Entries F V) (key : String) (value value' : V) (expiry : F)
      → entry store key ≡ some (value, expiry)
      → store ≡ store'
      → value ≡ value'
      → entry store' key ≡ some (value', expiry)
  entry_along store store' key value value' expiry h same same_value =
      rw (sym same, sym same_value) h
