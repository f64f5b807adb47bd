-- ===== src/Values/Equal.antt =====
-- `reflect.DeepEqual` on values of type `any`, as `hasConfigChanged` calls it
-- (internal/controller/helmapp.go).
pub mod Laws
use pluma_opeartor.Base.{
  ℕ, ◌%◌, ◌^◌, Bool, true, false, not, ◌&&◌, ◌||◌, Option, none, some, ◌==◌, ltb, eqb,
}
use pluma_opeartor.Values.{
  Any, null, bool, number, int64, text, list, object, nil_object, pointer, Items, nil, cons, Fields,
  end, field, lookup, size,
}

abbrev same_bool : Bool → Bool → Bool
same_bool true b = b
same_bool false b = not b

-- The magnitude of a float64, without its sign bit.
abbrev magnitude : ℕ → ℕ
magnitude p = p % 2 ^ 63

abbrev pub is_nan : ℕ → Bool
is_nan p = ltb 0x7ff0000000000000 (magnitude p)

-- `==` on float64: no NaN equals anything, and the two zeros are equal.
abbrev same_number : ℕ → ℕ → Bool
same_number p q =
    not (is_nan p) && not (is_nan q) && (eqb p q || eqb (magnitude p) 0 && eqb (magnitude q) 0)

unfoldable mutual
  pub deep_equal : Any → Any → Bool
  deep_equal null null = true
  deep_equal (bool a) (bool b) = same_bool a b
  deep_equal (number p) (number q) = same_number p q
  deep_equal (int64 p) (int64 q) = eqb p q
  deep_equal (text s) (text t) = s == t
  deep_equal (list xs) (list ys) = deep_equal_items xs ys
  deep_equal (object m) (object n) = eqb (size m) (size n) && includes n m
  deep_equal nil_object nil_object = true
  -- pointers to one message; this code compares no two messages
  deep_equal (pointer a) (pointer b) = eqb a b
  deep_equal _ _ = false

  pub deep_equal_items : Items → Items → Bool
  deep_equal_items nil nil = true
  deep_equal_items (cons v xs) (cons w ys) = deep_equal v w && deep_equal_items xs ys
  deep_equal_items _ _ = false

  -- The loop over the entries of the second map: each has its equal in the first.
  pub includes : Fields → Fields → Bool
  includes n end = true
  includes n (field k v m) = elim (lookup k n) [
    | none ↦ false
    | some w ↦ deep_equal v w && includes n m
  ]

-- Two maps that are not nil have as many entries, and each entry of the one has its equal in the
-- other.
unfoldable pub deep_equal_maps : Fields → Fields → Bool
unfolding deep_equal
deep_equal_maps m n = deep_equal (object m) (object n)
