-- ===== src/Address/Cache/History.antt =====
-- What the cache of app/resolve_address promises: its answers are those of the history of its calls, and
-- the entries that `get` deletes on the way change none of them.
use rooftrace.Prelude.{
  ◌≡◌, refl, true, Option, none, some, List, [], ◌∷◌, String, str_eq, if◌then◌else◌, arith, eq_iff,
  Bool-cases, Option-cases, inl, inr, ◌∙◌,
}
use rooftrace.Float.{Float, IsOrdered, ◌⊕◌}
use rooftrace.Address.Cache.{Entries, entry, insert, delete, get, set, clear}

-- One call of the cache, with the time that the clock shows in it.
pub data Call (F : Type 0) (V : Type 0) : Type 0 where
  got : F → String → Call F V
  put : F → String → V → F → Call F V
  cleared : F → Call F V

module _ {F V : Type 0} where
  pub entry-insert :
      (store : Entries F V) (k key : String) (new : V × F)
      → entry (insert store k new) key ≡ (if str_eq k key then some new else entry store key)
  unfolding entry insert
  entry-insert [] k key new = ground arith
  entry-insert ((k', e) ∷ store) k key new =
      ground (arith, entry-insert store k key new, eq_iff k' k, eq_iff k' key, eq_iff k key)

  entry-delete :
      (store : Entries F V) (k key : String)
      → entry (delete store k) key ≡ (if str_eq k key then none else entry store key)
  unfolding entry delete
  entry-delete [] k key = ground arith
  entry-delete ((k', e) ∷ store) k key =
      ground (arith, entry-delete store k key, eq_iff k' k, eq_iff k' key, eq_iff k key)

module _ {F : Type 0} ⦃fl : Float F⦄ {V : Type 0} where
  time : Call F V → F
  time (got t key) = t
  time (put t key value ttl) = t
  time (cleared t) = t

  -- The store after the calls, the newest of which comes first.
  unfoldable pub run : List (Call F V) → Entries F V
  run [] = []
  run (got t key ∷ cs) = (get t (run cs) key).1
  run (put t key value ttl ∷ cs) = set t (run cs) key value ttl
  run (cleared t ∷ cs) = clear (run cs)

  -- The newest value that was put under the key since the cache was last cleared, with its expiry.
  unfoldable pub newest : List (Call F V) → String → Option (V × F)
  newest [] key = none
  newest (got t k ∷ cs) key = newest cs key
  newest (put t k value ttl ∷ cs) key =
      let rest = newest cs key in if str_eq k key then some (value, t ⊕ ttl) else rest
  newest (cleared t ∷ cs) key = none

  -- A value that has not expired by `now`
  unfoldable pub live : F → Option (V × F) → Option V
  live now none = none
  live now (some (value, expiry)) = if fl.lt expiry now then none else some value

  -- The clock never goes back, from one call to the next and to `now`.
  unfoldable pub InOrder : F → List (Call F V) → Type 0
  unfolding time
  InOrder now [] = Unit {0}
  InOrder now (c ∷ cs) = (fl.le (time c) now ≡ true) × InOrder (time c) cs

  module _ (ord : IsOrdered F) where
    open ord use {le_trans, lt-eq-not-le}

    InOrder-later :
        (t now : F) (cs : List (Call F V)) → fl.le t now ≡ true → InOrder t cs → InOrder now cs
    unfolding InOrder
    InOrder-later t now [] h ordered = tt
    InOrder-later t now (c ∷ cs) h ordered = (le_trans (time c) t now ordered.0 h, ordered.1)

    -- A `get` changes no answer that is given after it.
    live-get :
        (t now : F) (store : Entries F V) (k key : String)
        → fl.le t now ≡ true
        → live now (entry (get t store k).1 key) ≡ live now (entry store key)
    unfolding get live
    live-get t now store k key h = elim (Option-cases (entry store k)) [
      | inl absent ↦ ground (arith, absent)
      | inr ((value, expiry), found) ↦ elim (Bool-cases (fl.lt expiry t)) [
        | inl expired ↦ elim (Bool-cases (str_eq k key)) [
          | inl same ↦ ground (
            arith,
            found,
            expired,
            entry-delete store k key,
            (eq_iff k key).0 same,
            lt-eq-not-le expiry t,
            lt-eq-not-le expiry now,
            le_trans expiry t now,
            le_trans t now expiry h,
          )
          | inr other ↦ ground (arith, found, expired, entry-delete store k key, other)
        ]
        | inr fresh ↦ ground (arith, found, fresh)
      ]
    ]

    live-run :
        (now : F) (cs : List (Call F V)) (key : String)
        → InOrder now cs
        → live now (entry (run cs) key) ≡ live now (newest cs key)
    unfolding run newest InOrder set clear entry
    live-run now [] key ordered = refl
    live-run now (got t k ∷ cs) key (h, ordered) =
        live-get t now (run cs) k key h ∙ live-run now cs key (InOrder-later t now cs h ordered)
    live-run now (put t k value ttl ∷ cs) key (h, ordered) = ground (
      arith,
      entry-insert (run cs) k key (value, t ⊕ ttl),
      live-run now cs key (InOrder-later t now cs h ordered),
    )
    live-run now (cleared t ∷ cs) key (h, ordered) = refl

    -- The cache answers with the newest value put under the key since it was last cleared, unless that
    -- has expired, whatever calls it served: where the clock never goes back between them.
    pub get-live-newest :
        (now : F) (cs : List (Call F V)) (key : String)
        → InOrder now cs
        → (get now (run cs) key).0 ≡ live now (newest cs key)
    unfolding get live
    get-live-newest now cs key ordered = ground (arith, live-run now cs key ordered)
