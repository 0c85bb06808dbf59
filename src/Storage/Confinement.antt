-- ===== src/Storage/Confinement.antt =====
-- What app/storage.py promises: a key never leaves the local root, a blob that was put is the one that is
-- got, and the cap holds.
use rooftrace.Prelude.{
  ℕ, ◌+◌, ◌≤◌, ◌≡◌, ◌≢◌, refl, true, false, Option, none, some, [], ◌∷◌, arith, length, take,
  if◌then◌else◌, String, eq_iff, Result, ok, err, Raised, storage_error, >>=-eq-ok, Bool-cases,
  Option-cases, Result-cases, ltb, ◌<◌, ◌⊎◌, inl, inr, ap, sym, ◌∙◌, ◌>>=◌,
}
use text.Mathlib.TextPositions.{eq_refl}
use rooftrace.Storage.{
  FilePath, Bytes, Files, path_eq, is_under, safe_local_path, read_file, write_file, Client,
  StorageEnv, Store, bucket_of, read_local, get_bytes, refuse_above, too_large, above, read_headed,
  file_size, read_local_capped, get_remote_capped, get_bytes_capped, put_local, put_bytes,
}

path_eq_refl : (p : FilePath) → path_eq p p ≡ true
path_eq_refl [] = refl
path_eq_refl (c ∷ p) = ground (arith, eq_refl c, path_eq_refl p)

path_eq_sound : (p q : FilePath) → path_eq p q ≡ true → p ≡ q
path_eq_sound [] [] h = refl
path_eq_sound [] (d ∷ q) h = absurd (ground arith)
path_eq_sound (c ∷ p) [] h = absurd (ground arith)
path_eq_sound (c ∷ p) (d ∷ q) h = ground (arith, eq_iff c d, path_eq_sound p q)

read_file-write_file :
    (files : Files) (path q : FilePath) (new : Bytes)
    → read_file (write_file files path new) q
      ≡ (if path_eq path q then some new else read_file files q)
unfolding read_file write_file
read_file-write_file [] path q new = ground arith
read_file-write_file ((p, old) ∷ files) path q new = ground (
  arith,
  read_file-write_file files path q new,
  path_eq_sound p path,
  path_eq_sound path q,
  path_eq_sound p q,
  path_eq_refl p,
  path_eq_refl q,
  path_eq_refl path,
)

safe_local_path-under :
    (root path : FilePath) (key : String)
    → safe_local_path root key ≡ ok path
    → is_under root path ≡ true
unfolding safe_local_path
safe_local_path-under root path key h = ground arith

ok≢err : {A : Type 0} {a : A} {e : Raised} → ok a ≢ err e
ok≢err h = ground arith

refuse_above-le :
    (max_bytes : ℕ) (key : String) (body raw : Bytes)
    → refuse_above max_bytes key body ≡ ok raw
    → length raw ≤ max_bytes
refuse_above-le max_bytes key body raw h = ground arith

abbrev size_of : Option Bytes → Option ℕ
size_of none = none
size_of (some raw) = some (length raw)

module _ {S : Type 0} (boto : Client S) (env : StorageEnv) where
  get_bytes-local :
      (store : Store S) (root : FilePath) (key : String)
      → env.local_root ≡ some root
      → get_bytes boto env store key
        ≡ (safe_local_path root key >>= λ path. read_local boto env store.files path)
  unfolding get_bytes
  get_bytes-local store root key e = rw e

  put_bytes-local :
      (store : Store S) (root : FilePath) (key : String) (new : Bytes)
      → env.local_root ≡ some root
      → put_bytes boto env store key new ≡ (
          safe_local_path root key >>= λ path.
          put_local boto env store root path new >>= λ store'. ok (key, store'))
  unfolding put_bytes
  put_bytes-local store root key new e = rw e

  get_bytes_capped-local :
      (store : Store S) (root : FilePath) (key : String) (max_bytes : ℕ)
      → env.local_root ≡ some root
      → get_bytes_capped boto env store key max_bytes
        ≡ (safe_local_path root key >>= read_local_capped boto env store.files key max_bytes)
  unfolding get_bytes_capped
  get_bytes_capped-local store root key max_bytes e = rw e

  get_bytes_capped-remote :
      (store : Store S) (key : String) (max_bytes : ℕ)
      → env.local_root ≡ none
      → get_bytes_capped boto env store key max_bytes
        ≡ get_remote_capped boto env store.remote key max_bytes
  unfolding get_bytes_capped
  get_bytes_capped-remote store key max_bytes e = rw e

  read_local-agree :
      (s t : Store S) (path : FilePath)
      → read_file s.files path ≡ read_file t.files path
      → read_local boto env s.files path ≡ read_local boto env t.files path
  unfolding read_local
  read_local-agree s t path e =
      ap (λ o. elim o [ none ↦ err (storage_error "local object not found") | some b ↦ ok b ]) e

  read_local-some :
      (files : Files) (path : FilePath) (b : Bytes)
      → read_file files path ≡ some b
      → read_local boto env files path ≡ ok b
  unfolding read_local
  read_local-some files path b e =
      ap (λ o. elim o [ none ↦ err (storage_error "local object not found") | some b ↦ ok b ]) e

  -- With a local root, what `get_bytes` answers depends only on the files below the root: two stores
  -- that agree on every path under it answer every key alike.
  pub get_bytes-confined :
      (root : FilePath) (s t : Store S) (key : String)
      → env.local_root ≡ some root
      → ((path : FilePath)
          → is_under root path ≡ true
          → read_file s.files path ≡ read_file t.files path)
      → get_bytes boto env s key ≡ get_bytes boto env t key
  unfolding read_local
  get_bytes-confined root s t key e agree =
      rw (get_bytes-local s root key e, get_bytes-local t root key e)
        (go (safe_local_path root key) refl)
    where
      go :
          (r : Result Raised FilePath)
          → safe_local_path root key ≡ r
          → (r >>= λ path. read_local boto env s.files path)
            ≡ (r >>= λ path. read_local boto env t.files path)
      go (err x) h = refl
      go (ok path) h =
          read_local-agree s t path (agree path (safe_local_path-under root path key h))

  put_local-files :
      (store store' : Store S) (root path : FilePath) (new : Bytes)
      → put_local boto env store root path new ≡ ok store'
      → store'.files ≡ write_file store.files path new
  unfolding put_local
  put_local-files store store' root path new h = ground arith

  -- With a local root, where `put_bytes` succeeds: it returns the key; the key lies at a path under
  -- the root; `get_bytes` of the key then gives the bytes that were put; and the file at any other
  -- path is as it was.
  pub put_bytes-get_bytes :
      (root : FilePath) (store store' : Store S) (key key' : String) (new : Bytes)
      → env.local_root ≡ some root
      → put_bytes boto env store key new ≡ ok (key', store')
      → (key' ≡ key)
        × (get_bytes boto env store' key ≡ ok new)
        × ((path : FilePath) × (is_under root path ≡ true)
            × ((q : FilePath)
                → path_eq path q ≡ false
                → read_file store'.files q ≡ read_file store.files q))
  put_bytes-get_bytes root store store' key key' new e h =
      let (path, at, h1) =
        >>=-eq-ok (safe_local_path root key) _ (rw (put_bytes-local store root key new e) at h) in
      let (store2, put, h2) = >>=-eq-ok (put_local boto env store root path new) _ h1 in
      let same_key : key' ≡ key = ground arith in
      let same_store : store2 ≡ store' = ground arith in
      let files = put_local-files store store' root path new (put ∙ ap ok same_store) in
      let looked : (q : FilePath)
          → read_file store'.files q
            ≡ (if path_eq path q then some new else read_file store.files q) =
        λ q. ap (λ fs. read_file fs q) files ∙ read_file-write_file store.files path q new in
      (
        same_key,
        get_bytes-local store' root key e
            ∙ ap (λ r. r >>= λ p. read_local boto env store'.files p) at
            ∙ read_local-some store'.files path new (looked path ∙ rw (path_eq_refl path) refl),
        (path, safe_local_path-under root path key at, λ q ne. looked q ∙ rw ne refl),
      )

  read_headed-le :
      (remote : S) (bucket key : String) (max_bytes : ℕ) (head : Result Raised (Option ℕ))
      (raw : Bytes)
      → read_headed boto env remote bucket key max_bytes head ≡ ok raw
      → length raw ≤ max_bytes
  unfolding read_headed
  read_headed-le remote bucket key max_bytes (err e) raw h = absurd (ground arith)
  read_headed-le remote bucket key max_bytes (ok content_length) raw h =
      elim (Bool-cases (above max_bytes content_length)) [
        | inl e ↦ absurd (ok≢err {a = raw} {e = too_large max_bytes key} (sym h ∙ rw e refl))
        | inr e ↦
            let (body, _, h1) = >>=-eq-ok (boto.get_object remote bucket key) _ (rw e at h) in
            refuse_above-le max_bytes key (take (max_bytes + 1) body) raw h1
      ]

  get_remote_capped-le :
      (remote : S) (key : String) (max_bytes : ℕ) (raw : Bytes)
      → get_remote_capped boto env remote key max_bytes ≡ ok raw
      → length raw ≤ max_bytes
  unfolding get_remote_capped
  get_remote_capped-le remote key max_bytes raw h =
      let (bucket, _, h1) = >>=-eq-ok (bucket_of boto env) _ h in
      read_headed-le remote bucket key max_bytes (boto.head_object remote bucket key) raw h1

  -- A capped read of a file against the plain read
  abbrev IsCapped : ℕ → String → Result Raised Bytes → Result Raised Bytes → Type 0
  IsCapped max_bytes key plain capped =
      ((e : Raised) × (plain ≡ err e) × (capped ≡ err e))
      ⊎ ((raw : Bytes) × (plain ≡ ok raw)
          × (((length raw ≤ max_bytes) × (capped ≡ ok raw))
              ⊎ ((max_bytes < length raw) × (capped ≡ err (too_large max_bytes key)))))

  file_size-read_file :
      (files : Files) (path : FilePath) → file_size files path ≡ size_of (read_file files path)
  unfolding file_size read_file
  file_size-read_file [] path = refl
  file_size-read_file ((q, data_of) ∷ files) path = ground (arith, file_size-read_file files path)

  read_local_capped-IsCapped :
      (files : Files) (key : String) (max_bytes : ℕ) (path : FilePath)
      → IsCapped max_bytes key
          (read_local boto env files path)
          (read_local_capped boto env files key max_bytes path)
  unfolding read_local_capped read_local
  read_local_capped-IsCapped files key max_bytes path =
      let size = file_size-read_file files path in
      elim (Option-cases (read_file files path)) [
        | inl absent ↦
            let none_there : file_size files path ≡ none = size ∙ ap size_of absent in
            rw (absent, none_there, read_local, read_local_capped) (inl (_, refl, refl))
        | inr (raw, there) ↦
            let its_size : file_size files path ≡ some (length raw) = size ∙ ap size_of there in
            let read = read_local-some files path raw there in
            elim (Bool-cases (ltb max_bytes (length raw))) [
              | inl e ↦
                  rw (its_size, e, read_local_capped) (inr (raw, read, inr (ground arith, refl)))
              | inr e ↦
                  rw (its_size, e, read_local_capped) (inr (raw, read, inl (ground arith, read)))
            ]
      ]

  read_local_capped-le :
      (files : Files) (key : String) (max_bytes : ℕ) (path : FilePath) (raw : Bytes)
      → read_local_capped boto env files key max_bytes path ≡ ok raw
      → length raw ≤ max_bytes
  read_local_capped-le files key max_bytes path raw h =
      elim (read_local_capped-IsCapped files key max_bytes path) [
        | inl (e, plain, capped) ↦ absurd (ok≢err {a = raw} {e = e} (sym h ∙ capped))
        | inr (raw', plain, inl (small, capped)) ↦ let same : raw' ≡ raw = cc in rw (sym same) small
        | inr (raw', plain, inr (large, capped)) ↦
            absurd (ok≢err {a = raw} {e = too_large max_bytes key} (sym h ∙ capped))
      ]

  -- Local or remote: what `get_bytes_capped` returns is no longer than `max_bytes`.
  pub get_bytes_capped_le :
      (store : Store S) (key : String) (max_bytes : ℕ) (raw : Bytes)
      → get_bytes_capped boto env store key max_bytes ≡ ok raw
      → length raw ≤ max_bytes
  get_bytes_capped_le store key max_bytes raw h = elim (Option-cases env.local_root) [
    | inl e ↦
        get_remote_capped-le store.remote key max_bytes raw
          (rw (get_bytes_capped-remote store key max_bytes e) at h)
    | inr (root, e) ↦
        let (path, at, h1) =
          >>=-eq-ok (safe_local_path root key) _
            (rw (get_bytes_capped-local store root key max_bytes e) at h) in
        read_local_capped-le store.files key max_bytes path raw h1
  ]

  -- With a local root, `get_bytes_capped` fails with the error of `get_bytes`, where that fails; gives
  -- the same content, where that has at most `max_bytes` bytes; and refuses it with StorageTooLargeError,
  -- where it has more.
  pub get_bytes_capped-get_bytes :
      (root : FilePath) (store : Store S) (key : String) (max_bytes : ℕ)
      → env.local_root ≡ some root
      → ((e : Raised) × (get_bytes boto env store key ≡ err e)
          × (get_bytes_capped boto env store key max_bytes ≡ err e))
        ⊎ ((raw : Bytes) × (get_bytes boto env store key ≡ ok raw)
            × (((length raw ≤ max_bytes) × (get_bytes_capped boto env store key max_bytes ≡ ok raw))
                ⊎ ((max_bytes < length raw)
                    × (get_bytes_capped boto env store key max_bytes
                        ≡ err (too_large max_bytes key)))))
  get_bytes_capped-get_bytes root store key max_bytes e =
      rw (get_bytes-local store root key e, get_bytes_capped-local store root key max_bytes e)
        (elim (Result-cases (safe_local_path root key)) [
          | inl (x, bad) ↦ rw bad (inl (x, refl, refl))
          | inr (path, at) ↦ rw at (read_local_capped-IsCapped store.files key max_bytes path)
        ])
