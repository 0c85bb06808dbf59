-- ===== src/Address/Json.antt =====
-- Values that json.loads makes, and what Python's dicts, lists and `or` do with them. No code of the
-- repository.
use rooftrace.Prelude.{
  ℕ, suc, Bool, true, false, not, Option, none, some, List, [], ◌∷◌, String, str_eq, if◌then◌else◌,
  Result, ok, err, Raised, other,
}
use rooftrace.Float.{Float}

mutual
  pub data Json (F : Type 0) : Type 0 where
    null : Json F
    bool : Bool → Json F
    number : F → Json F
    text : String → Json F
    arr : Items F → Json F
    obj : Fields F → Json F

  pub data Items (F : Type 0) : Type 0 where
    nil : Items F
    cons : Json F → Items F → Items F

  pub data Fields (F : Type 0) : Type 0 where
    end : Fields F
    field : String → Json F → Fields F → Fields F

abbrev pub items : {F : Type 0} → Items F → List (Json F)
items nil = []
items (cons v vs) = v ∷ items vs

abbrev pub size : {F : Type 0} → Items F → ℕ
size nil = 0
size (cons v vs) = suc (size vs)

abbrev find_entry : {F : Type 0} → Fields F → String → Option (Json F)
find_entry end key = none
find_entry (field k v fs) key =
    let rest = find_entry fs key in if str_eq k key then some v else rest

abbrev or_null : {F : Type 0} → Option (Json F) → Json F
or_null none = null
or_null (some v) = v

-- `value.get(key)`; what is no dict has no such method.
abbrev pub get_field : {F : Type 0} → Json F → String → Result Raised (Json F)
get_field (obj fs) key = ok (or_null (find_entry fs key))
get_field _ key = err (other "AttributeError" "no attribute 'get'")

-- `value[0]` of a list; nothing else in these answers is indexed.
abbrev pub first_item : {F : Type 0} → Json F → Result Raised (Json F)
first_item (arr (cons v vs)) = ok v
first_item (arr nil) = err (other "IndexError" "list index out of range")
first_item (obj fs) = err (other "KeyError" "0")
first_item _ = err (other "TypeError" "not subscriptable")

-- `value[key]` of a dict
abbrev pub item_at : {F : Type 0} → Json F → String → Result Raised (Json F)
item_at (obj fs) key = elim (find_entry fs key) [
  | none ↦ err (other "KeyError" key)
  | some v ↦ ok v
]
item_at _ key = err (other "TypeError" "not a dict")

-- `len(value)`
abbrev pub len_of : {F : Type 0} → Json F → Result Raised ℕ
len_of (arr vs) = ok (size vs)
len_of _ = err (other "TypeError" "not a list")

module _ {F : Type 0} ⦃fl : Float F⦄ where
  -- `bool(value)`
  abbrev pub truthy : Json F → Bool
  truthy null = false
  truthy (bool b) = b
  truthy (number x) = not (fl.eq x (fl.num 0 0))
  truthy (text String.[]) = false
  truthy (text (String.◌∷◌ c s)) = true
  truthy (arr nil) = false
  truthy (arr (cons v vs)) = true
  truthy (obj end) = false
  truthy (obj (field k v fs)) = true

  -- `value or default`
  abbrev pub or_else : Json F → Json F → Json F
  or_else value default = if truthy value then value else default
