-- ===== src/Values.antt =====
-- Go's `any` and `map[string]any`, as far as the operator's code looks at them
-- (internal/controller/helmapp.go and internal/istio/iop.go).
-- A map is an association list: no function of the code depends on the order of its entries, and
-- `IsMap` says that no key stands twice. A float64 is its bit pattern.
pub mod Lookup
pub mod Paths
pub mod Merge
pub mod Equal
use pluma_opeartor.Base.{
  ℕ, ◌%◌, ◌^◌, String, ◌≡◌, refl, Bool, true, false, not, ◌&&◌, ◌||◌, Option, none, some, ◌==◌, ltb,
  eqb, if◌then◌else◌, suc,
}

mutual
  pub data Any : Type 0 where
    null : Any
    bool : Bool → Any
    number : ℕ → Any
    int64 : ℕ → Any
    text : String → Any
    list : Items → Any
    object : Fields → Any
    -- a nil map[string]any
    nil_object : Any
    -- a pointer to a message of another package, by its address
    pointer : ℕ → Any

  pub data Items : Type 0 where
    nil : Items
    cons : Any → Items → Items

  pub data Fields : Type 0 where
    end : Fields
    field : String → Any → Fields → Fields

-- `m[k]`
unfoldable pub lookup : String → Fields → Option Any
lookup k end = none
lookup k (field j v m) = if j == k then some v else lookup k m

-- `m[k] = v`
unfoldable pub insert : String → Any → Fields → Fields
insert k v end = field k v end
insert k v (field j w m) = if j == k then field j v m else field j w (insert k v m)

-- `len(m)`
unfoldable pub size : Fields → ℕ
size end = 0
size (field k v m) = suc (size m)

-- `v.(map[string]any)`. Reading a nil map is reading an empty one.
abbrev pub as_object : Any → Option Fields
as_object (object m) = some m
as_object nil_object = some end
as_object _ = none

-- The same assertion on what a key holds, if it holds anything.
abbrev pub old_object : Option Any → Option Fields
old_object none = none
old_object (some v) = as_object v

-- No key stands twice, at any depth.
abbrev mutual
  pub IsMap : Fields → Type 0
  IsMap end = Unit
  IsMap (field k v m) = (lookup k m ≡ none) × IsMapValue v × IsMap m

  pub IsMapValue : Any → Type 0
  IsMapValue (object m) = IsMap m
  IsMapValue (list xs) = IsMapItems xs
  IsMapValue _ = Unit

  pub IsMapItems : Items → Type 0
  IsMapItems nil = Unit
  IsMapItems (cons v xs) = IsMapValue v × IsMapItems xs

-- No nil map stands inside. The values that a protobuf `Struct` holds have none.
abbrev mutual
  pub NoNil : Fields → Type 0
  NoNil end = Unit
  NoNil (field k v m) = NoNilValue v × NoNil m

  pub NoNilValue : Any → Type 0
  NoNilValue (object m) = NoNil m
  NoNilValue nil_object = ⊥
  NoNilValue _ = Unit
