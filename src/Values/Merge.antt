-- ===== src/Values/Merge.antt =====
-- `MergeValues` of internal/controller/helmapp.go.
pub mod Copy
pub mod Lookup
pub mod Paths
pub mod Again
pub mod Order
pub mod Abstract
use pluma_opeartor.Base.{◌≡◌, Option, none, some}
use pluma_opeartor.Values.{
  Any, null, bool, number, int64, text, list, object, nil_object, pointer, Fields, end, field,
  lookup, insert, old_object,
}

-- `for k, v := range a { out[k] = v }`
unfoldable pub copy_into : Fields → Fields → Fields
copy_into end out = out
copy_into (field k v a) out = copy_into a (insert k v out)

unfoldable mutual
  unfolding copy_into

  -- `for k, v := range b { … }`
  pub merge_into : Fields → Fields → Fields
  merge_into end out = out
  merge_into (field k v b) out = merge_into b (insert k (merge_value v (lookup k out)) out)

  -- What the loop's body stores for the value `v`, where `out[k]` is `old`.
  pub merge_value : Any → Option Any → Any
  merge_value (object m) old = elim (old_object old) [
    | none ↦ object m
    | some bv ↦ object (merge_into m (copy_into bv end))
  ]
  merge_value nil_object old = elim (old_object old) [
    | none ↦ nil_object
    | some bv ↦ object (copy_into bv end)
  ]
  merge_value v old = v

unfoldable pub merge_values : Fields → Fields → Fields
unfolding merge_into copy_into
merge_values a b = merge_into b (copy_into a end)
