-- ===== src/Storage.antt =====
-- app/storage.py: blobs by key, under a local root or in a bucket. A path is the list of its names from
-- the file system's root; the file system is the list of its files, without symbolic links.
pub mod Confinement
use Prim.Native.Char.{code}
use rooftrace.Prelude.{
  ℕ, zero, suc, ◌+◌, Bool, true, false, not, ◌&&◌, ◌||◌, Option, none, some, List, [], ◌∷◌, ◌++◌,
  length, take, ltb, ◌==◌, if◌then◌else◌, String, str_eq, Result, ok, err, Raised, storage_error,
  storage_too_large, other, f_string, show, ◌>>=◌, any,
}

abbrev pub FilePath : Type 0
FilePath = List String

abbrev pub Bytes : Type 0
Bytes = List ℕ

abbrev pub Files : Type 0
Files = List (FilePath × Bytes)

abbrev pub path_eq : FilePath → FilePath → Bool
path_eq [] [] = true
path_eq [] (d ∷ q) = false
path_eq (c ∷ p) [] = false
path_eq (c ∷ p) (d ∷ q) = str_eq c d && path_eq p q

-- `root == path or root in path.parents`
abbrev pub is_under : FilePath → FilePath → Bool
is_under [] path = true
is_under (c ∷ root) [] = false
is_under (c ∷ root) (d ∷ path) = str_eq c d && is_under root path

abbrev push_char : Prim.Native.Char.Char → List String → List String
push_char c [] = String.◌∷◌ c "" ∷ []
push_char c (s ∷ ss) = String.◌∷◌ c s ∷ ss

-- The names between the slashes.
abbrev pub names : String → List String
names String.[] = "" ∷ []
names (String.◌∷◌ c s) = let rest = names s in if code c == 47 then "" ∷ rest else push_char c rest

abbrev parent : FilePath → FilePath
parent [] = []
parent (c ∷ []) = []
parent (c ∷ d ∷ p) = c ∷ parent (d ∷ p)

-- `Path.resolve` from a directory: `..` goes up, and stays at the top; `.` and an empty name stay.
abbrev pub resolve : FilePath → List String → FilePath
resolve at [] = at
resolve at (n ∷ ns) =
    resolve
      (if str_eq n "" || str_eq n "."
        then at
        else if str_eq n ".."
        then parent at
        else at ++ n ∷ [])
      ns

abbrev is_absolute : String → Bool
is_absolute String.[] = false
is_absolute (String.◌∷◌ c s) = code c == 47

-- `_safe_local_path`, for a root that is resolved. A key with a leading slash replaces the root.
unfoldable pub safe_local_path : FilePath → String → Result Raised FilePath
safe_local_path root key =
    let candidate = resolve (if is_absolute key then [] else root) (names key) in
    if is_under root candidate
    then ok candidate
    else err (storage_error (f_string ("object key escapes storage root: " ∷ key ∷ [])))

-- `path.is_file()` with `path.read_bytes()`
unfoldable pub read_file : Files → FilePath → Option Bytes
read_file [] path = none
read_file ((q, data_of) ∷ files) path =
    let rest = read_file files path in if path_eq q path then some data_of else rest

-- `path.is_file()` with `path.stat().st_size`
unfoldable pub file_size : Files → FilePath → Option ℕ
file_size [] path = none
file_size ((q, data_of) ∷ files) path =
    let rest = file_size files path in if path_eq q path then some (length data_of) else rest

unfoldable pub write_file : Files → FilePath → Bytes → Files
write_file [] path new = (path, new) ∷ []
write_file ((q, data_of) ∷ files) path new =
    let rest = write_file files path new in
    if path_eq q path then (q, new) ∷ files else (q, data_of) ∷ rest

-- Other files that keep `path` from being written: it is one's directory, or lies below one.
abbrev pub is_blocked : Files → FilePath → Bool
is_blocked files path =
    any (λ f. not (path_eq f.0 path) && (is_under path f.0 || is_under f.0 path)) files

-- The boto3 client, and the bucket's contents `S`.
pub record Client (S : Type 0) : Type 0 where
  pub get_object : S → String → String → Result Raised Bytes
  -- the `ContentLength` of the head, if the backend reports one
  pub head_object : S → String → String → Result Raised (Option ℕ)
  pub put_object : S → String → String → Bytes → Result Raised S

-- The STORAGE_ variables that select the backend. An empty one counts as unset.
pub record StorageEnv : Type 0 where
  pub local_root : Option FilePath
  pub endpoint : Option String
  pub bucket : Option String

abbrev not_empty : Option String → Option String
not_empty none = none
not_empty (some text) = if str_eq text "" then none else some text

abbrev root_of : FilePath → Option String → Option FilePath
root_of cwd none = none
root_of cwd (some root) = some (resolve (if is_absolute root then [] else cwd) (names root))

-- The environment's variables, read where the process stands in the directory `cwd`.
unfoldable pub storage_env : FilePath → (String → Option String) → StorageEnv
storage_env cwd env = record {
  local_root = root_of cwd (not_empty (env "STORAGE_LOCAL_ROOT"));
  endpoint = not_empty (env "STORAGE_ENDPOINT");
  bucket = not_empty (env "STORAGE_BUCKET");
}

pub record Store (S : Type 0) : Type 0 where
  pub files : Files
  pub remote : S

abbrev pub too_large : ℕ → String → Raised
too_large max_bytes key =
    storage_too_large (f_string ("object exceeds max_bytes (" ∷ show max_bytes ∷ "): " ∷ key ∷ []))

abbrev pub refuse_above : ℕ → String → Bytes → Result Raised Bytes
refuse_above max_bytes key raw =
    if ltb max_bytes (length raw) then err (too_large max_bytes key) else ok raw

abbrev pub above : ℕ → Option ℕ → Bool
above max_bytes none = false
above max_bytes (some content_length) = ltb max_bytes content_length

module _ {S : Type 0} (boto : Client S) (env : StorageEnv) where
  -- `_client()` and then `_bucket()`
  unfoldable pub bucket_of : Result Raised String
  bucket_of = elim env.endpoint [
    | none ↦ err (
        storage_error (
          f_string (
            "no storage backend configured: set STORAGE_LOCAL_ROOT (local/fixtures) "
            ∷ "or STORAGE_ENDPOINT + STORAGE_* creds (live Spaces)" ∷ [])))
    | some _ ↦ elim env.bucket [
      | none ↦ err (storage_error "STORAGE_BUCKET is unset")
      | some b ↦ ok b
    ]
  ]

  -- The texts of an error name the path; it is left out of the model's.
  unfoldable pub read_local : Files → FilePath → Result Raised Bytes
  unfolding read_file
  read_local files path = elim (read_file files path) [
    | none ↦ err (storage_error "local object not found")
    | some data_of ↦ ok data_of
  ]

  unfoldable pub get_bytes : Store S → String → Result Raised Bytes
  unfolding read_local safe_local_path bucket_of
  get_bytes store key = elim env.local_root [
    | some root ↦ safe_local_path root key >>= λ path. read_local store.files path
    | none ↦ bucket_of >>= λ bucket. boto.get_object store.remote bucket key
  ]

  -- The bucket's branch: the head first, and then at most `max_bytes + 1` bytes of the body.
  unfoldable pub read_headed :
      S → String → String → ℕ → Result Raised (Option ℕ) → Result Raised Bytes
  read_headed remote bucket key max_bytes (err e) =
      err (storage_error (f_string ("object not found or unreadable: " ∷ key ∷ [])))
  read_headed remote bucket key max_bytes (ok content_length) =
      if above max_bytes content_length
      then err (too_large max_bytes key)
      else boto.get_object remote bucket key >>= λ body.
          refuse_above max_bytes key (take (max_bytes + 1) body)

  unfoldable pub get_remote_capped : S → String → ℕ → Result Raised Bytes
  unfolding bucket_of read_headed
  get_remote_capped remote key max_bytes = bucket_of >>= λ bucket.
      read_headed remote bucket key max_bytes (boto.head_object remote bucket key)

  -- The size is looked up first, and a file above the cap is not read.
  unfoldable pub read_local_capped : Files → String → ℕ → FilePath → Result Raised Bytes
  unfolding read_local file_size
  read_local_capped files key max_bytes path = elim (file_size files path) [
    | none ↦ err (storage_error "local object not found")
    | some st_size ↦
        if ltb max_bytes st_size then err (too_large max_bytes key) else read_local files path
  ]

  -- `max_bytes` is not negative.
  unfoldable pub get_bytes_capped : Store S → String → ℕ → Result Raised Bytes
  unfolding read_local_capped safe_local_path get_remote_capped
  get_bytes_capped store key max_bytes = elim env.local_root [
    | some root ↦ safe_local_path root key >>= read_local_capped store.files key max_bytes
    | none ↦ get_remote_capped store.remote key max_bytes
  ]

  -- A write to the root, or where a file stands in the way of a directory, is an OSError.
  unfoldable pub put_local : Store S → FilePath → FilePath → Bytes → Result Raised (Store S)
  unfolding write_file
  put_local store root path new =
      if path_eq root path || is_blocked store.files path
      then err (other "OSError" "not a regular file")
      else ok (record { files = write_file store.files path new; remote = store.remote })

  unfoldable pub put_bytes : Store S → String → Bytes → Result Raised (String × Store S)
  unfolding put_local safe_local_path bucket_of
  put_bytes store key new = elim env.local_root [
    | some root ↦ safe_local_path root key >>= λ path.
        put_local store root path new >>= λ store'. ok (key, store')
    | none ↦ bucket_of >>= λ bucket. boto.put_object store.remote bucket key new >>= λ remote'.
        ok (key, record { files = store.files; remote = remote' })
  ]
