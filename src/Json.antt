-- ===== src/Json.antt =====
-- A decoded JSON document, as Python's `json.loads` hands it to rpckit (rpckit/codec.py). An object
-- is a list of its members; numbers with a fraction or an exponent keep their text, which no
-- modelled code looks into.
use pyrpckit.Prelude.{
  Bool, List, Option, String, [], false, if◌then◌else◌, none, some, str_eq, true, ℕ, ◌&&◌, ◌==◌,
  ◌||◌, ◌∷◌,
}

pub data ℤ : Type 0 where
  pos : ℕ → ℤ
  negsuc : ℕ → ℤ

mutual
  pub data Json : Type 0 where
    null : Json
    bool : Bool → Json
    int : ℤ → Json
    float : String → Json
    str : String → Json
    arr : Items → Json
    obj : Fields → Json

  pub data Items : Type 0 where
    nil : Items
    cons : Json → Items → Items

  pub data Fields : Type 0 where
    end : Fields
    field : String → Json → Fields → Fields

-- `==` of two Python integers.
abbrev pub int_eq : ℤ → ℤ → Bool
int_eq (pos n) (pos m) = n == m
int_eq (negsuc n) (negsuc m) = n == m
int_eq _ _ = false

-- `d.get(k)`
abbrev pub get : String → Fields → Option Json
get k end = none
get k (field j v fs) = if str_eq j k then some v else get k fs

-- `k in d`
abbrev pub has : String → Fields → Bool
has k fs = elim (get k fs) [ none ↦ false | some v ↦ true ]

abbrev pub mem_str : String → List String → Bool
mem_str k [] = false
mem_str k (j ∷ js) = str_eq j k || mem_str k js

-- `set(d) <= {...}`
abbrev pub keys_within : List String → Fields → Bool
keys_within ks end = true
keys_within ks (field j v fs) = mem_str j ks && keys_within ks fs

-- `k in d for k in ks`
abbrev pub has_all : List String → Fields → Bool
has_all [] fs = true
has_all (k ∷ ks) fs = has k fs && has_all ks fs

-- `set(d) == {...}`
abbrev pub keys_are : List String → Fields → Bool
keys_are ks fs = keys_within ks fs && has_all ks fs

-- `isinstance(v, str) and v == s`
abbrev pub is_text : String → Option Json → Bool
is_text s (some (str t)) = str_eq t s
is_text s other = false

-- `bool(d)` of an object
abbrev pub is_empty : Fields → Bool
is_empty end = true
is_empty (field j v fs) = false

abbrev pub items : Items → List Json
items nil = []
items (cons v vs) = v ∷ items vs
