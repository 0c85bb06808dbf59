-- ===== src/Examples/Services.antt =====
-- The theorems on app/auth.py, app/storage.py and app/resolve_address at concrete inputs.
use Prim.Native.String.{◌++◌ as str_append}
use rooftrace.Prelude.{
  ℕ, ◌≤◌, ◌≡◌, refl, true, false, none, some, List, [], ◌∷◌, arith, length, ◌↔◌, ok, String, eq_iff,
  Raised, err, ◌⊎◌, ◌<◌,
}
use rooftrace.Pipeline.{is_ascii, require_bearer}
use rooftrace.Pipeline.Auth.{require_bearer_iff}
use rooftrace.Storage.{
  FilePath, Bytes, path_eq, is_under, read_file, Client, StorageEnv, Store, get_bytes, too_large,
  get_bytes_capped, put_bytes,
}
use rooftrace.Storage.Confinement.{
  get_bytes-confined, put_bytes-get_bytes, get_bytes_capped_le, get_bytes_capped-get_bytes,
}
use rooftrace.Address.Quadkey.{tile_xy_to_quadkey, tile_of, tile_of-tile_xy_to_quadkey}
use rooftrace.Address.Cache.{get}
use rooftrace.Address.Cache.History.{Call, got, put, run, newest, live, InOrder, get-live-newest}
use rooftrace.Examples.{whole_numbers, ordered_numbers}

require_bearer_iff_example :
    (require_bearer "s3cret" (some "Bearer s3cret") ≡ ok tt)
    ↔ ((some "Bearer s3cret" ≡ some (str_append "Bearer " "s3cret")) × (is_ascii "s3cret" ≡ true))
require_bearer_iff_example = require_bearer_iff "s3cret" (some "Bearer s3cret")

-- A bucket that holds one object.
abbrev pub one_object : Client Bytes
one_object = record {
  get_object = λ s bucket key. ok s;
  head_object = λ s bucket key. ok none;
  put_object = λ s bucket key new. ok new;
}

abbrev local_env : StorageEnv
local_env = record { local_root = some ("srv" ∷ []); endpoint = none; bucket = none }

abbrev small_store : Store Bytes
small_store = record {
  files = ("srv" ∷ "a" ∷ [], 1 ∷ 2 ∷ []) ∷ ("etc" ∷ "passwd" ∷ [], 7 ∷ []) ∷ [];
  remote = [];
}

abbrev other_store : Store Bytes
other_store = record { files = ("srv" ∷ "a" ∷ [], 1 ∷ 2 ∷ []) ∷ []; remote = 9 ∷ [] }

agree_below :
    (path : FilePath)
    → is_under ("srv" ∷ []) path ≡ true
    → read_file small_store.files path ≡ read_file other_store.files path
unfolding read_file
agree_below [] h = absurd (ground arith)
agree_below (c ∷ path) h = ground (arith, eq_iff "srv" c, eq_iff "etc" c, eq_iff "etc" "srv")

get_bytes-confined_example :
    get_bytes one_object local_env small_store "../etc/passwd"
    ≡ get_bytes one_object local_env other_store "../etc/passwd"
get_bytes-confined_example =
    get_bytes-confined one_object local_env ("srv" ∷ []) small_store other_store "../etc/passwd"
      refl agree_below

abbrev after_put : Store Bytes
after_put = record {
  files =
      ("srv" ∷ "a" ∷ [], 1 ∷ 2 ∷ [])
      ∷ ("etc" ∷ "passwd" ∷ [], 7 ∷ [])
      ∷ ("srv" ∷ "x" ∷ "b" ∷ [], 5 ∷ [])
      ∷ [];
  remote = [];
}

put_ok : put_bytes one_object local_env small_store "x/b" (5 ∷ []) ≡ ok ("x/b", after_put)
unfolding put_bytes
put_ok = refl

put_bytes-get_bytes_example :
    (◌≡◌ {A = String} "x/b" "x/b")
    × (get_bytes one_object local_env after_put "x/b" ≡ ok (5 ∷ []))
    × ((path : FilePath) × (is_under ("srv" ∷ []) path ≡ true)
        × ((q : FilePath)
            → path_eq path q ≡ false
            → read_file after_put.files q ≡ read_file small_store.files q))
put_bytes-get_bytes_example =
    put_bytes-get_bytes one_object local_env ("srv" ∷ []) small_store after_put "x/b" "x/b" (5 ∷ [])
      refl put_ok

capped_ok : get_bytes_capped one_object local_env small_store "a" 2 ≡ ok (1 ∷ 2 ∷ [])
unfolding get_bytes_capped
capped_ok = refl

get_bytes_capped_le_example : length {A = ℕ} (1 ∷ 2 ∷ []) ≤ 2
get_bytes_capped_le_example =
    get_bytes_capped_le one_object local_env small_store "a" 2 (1 ∷ 2 ∷ []) capped_ok

get_bytes_capped-get_bytes_example :
    ((e : Raised) × (get_bytes one_object local_env small_store "a" ≡ err e)
      × (get_bytes_capped one_object local_env small_store "a" 1 ≡ err e))
    ⊎ ((raw : Bytes) × (get_bytes one_object local_env small_store "a" ≡ ok raw)
        × (((length raw ≤ 1) × (get_bytes_capped one_object local_env small_store "a" 1 ≡ ok raw))
            ⊎ ((1 < length raw)
                × (get_bytes_capped one_object local_env small_store "a" 1
                    ≡ err (too_large 1 "a")))))
get_bytes_capped-get_bytes_example =
    get_bytes_capped-get_bytes one_object local_env ("srv" ∷ []) small_store "a" 1 refl

-- The newest call first: at 12 the entry of "b" has expired, and `get` deletes it.
abbrev calls : List (Call ℕ ℕ)
calls = got 15 "a" ∷ put 14 "a" 2 5 ∷ got 12 "b" ∷ put 11 "a" 1 5 ∷ put 10 "b" 9 1 ∷ []

calls-InOrder : InOrder ⦃fl = whole_numbers⦄ 16 calls
unfolding InOrder
calls-InOrder = (refl, (refl, (refl, (refl, (refl, tt)))))

get-live-newest_example :
    (get ⦃fl = whole_numbers⦄ 16 (run ⦃fl = whole_numbers⦄ calls) "a").0 ≡ some 2
unfolding newest live
get-live-newest_example =
    get-live-newest ⦃fl = whole_numbers⦄ ordered_numbers 16 calls "a" calls-InOrder

quadkey_of_tile : tile_xy_to_quadkey 3 5 3 ≡ "213"
unfolding tile_xy_to_quadkey
quadkey_of_tile = refl

tile_of-tile_xy_to_quadkey_example : tile_of (tile_xy_to_quadkey 3 5 3) ≡ (3, 3, 5)
tile_of-tile_xy_to_quadkey_example = tile_of-tile_xy_to_quadkey 3 5 3 (omega arith) (omega arith)
