-- ===== src/Prelude/Text.antt =====
-- Python's f-strings and `str(int)`, over the native texts, and the exceptions that carry them.
use Prim.Native.Nat.{ℕ, zero, suc, ◌/◌, ◌%◌}
use Prim.Native.String.{String, ◌++◌ as str_append}
use mathlib.Core.List.{List, [], ◌∷◌}
use rooftrace.Prelude.Tests.{ltb, ◌==◌, if◌then◌else◌}

-- An f-string, from its pieces.
abbrev pub f_string : List String → String
f_string [] = ""
f_string (s ∷ ss) = str_append s (f_string ss)

abbrev pub digit : ℕ → String
digit d =
    if d == 0
    then "0"
    else if d == 1
    then "1"
    else if d == 2
    then "2"
    else if d == 3
    then "3"
    else if d == 4
    then "4"
    else if d == 5
    then "5"
    else if d == 6
    then "6"
    else if d == 7
    then "7"
    else if d == 8
    then "8"
    else "9"

abbrev show_from : ℕ → ℕ → String → String
show_from zero n acc = acc
show_from (suc fuel) n acc =
    let rest = show_from fuel (n / 10) (str_append (digit (n % 10)) acc) in
    if ltb n 10 then str_append (digit n) acc else rest

-- `str(n)`. A number has fewer digits than its value plus one.
abbrev pub show : ℕ → String
show n = show_from (suc n) n ""

-- The exceptions that the modelled code raises or lets through.
pub data Raised : Type 0 where
  value_error : String → Raised
  runtime_error : String → Raised
  storage_error : String → Raised
  -- a subclass of `StorageError`
  storage_too_large : String → Raised
  -- `HTTPException(status_code, detail)`
  http : ℕ → String → Raised
  -- any other exception, by the name of its class
  other : String → String → Raised

-- `type(exc).__name__`
abbrev pub type_name : Raised → String
type_name (value_error m) = "ValueError"
type_name (runtime_error m) = "RuntimeError"
type_name (storage_error m) = "StorageError"
type_name (storage_too_large m) = "StorageTooLargeError"
type_name (http s m) = "HTTPException"
type_name (other n m) = n

-- `str(exc)`
abbrev pub message : Raised → String
message (value_error m) = m
message (runtime_error m) = m
message (storage_error m) = m
message (storage_too_large m) = m
message (http s m) = m
message (other n m) = m
