-- ===== src/Values/Merge/Lookup.antt =====
-- What `MergeValues` stores at a key.
use pluma_opeartor.Base.{String, ◌≡◌, refl, Option, none, some, eq_iff, arith, ◌∙◌}
use pluma_opeartor.Values.{
  Any, object, nil_object, Fields, end, field, lookup, insert, IsMap, IsMapValue,
}
use pluma_opeartor.Values.Lookup.{lookup-insert, insert-IsMap}
use pluma_opeartor.Values.Merge.{merge_into, merge_value, merge_values}
use pluma_opeartor.Values.Merge.Copy.{copy_into-end}

-- The entry that the loop leaves, from the entry of `b` and the entry before it.
abbrev pub merged : Option Any → Option Any → Option Any
merged none old = old
merged (some v) old = some (merge_value v old)

pub lookup-merge_into :
    (k : String) (b out : Fields)
    → IsMap b
    → lookup k (merge_into b out) ≡ merged (lookup k b) (lookup k out)
unfolding merge_into lookup
lookup-merge_into k end out u = refl
lookup-merge_into k (field j v b) out u =
    lookup-merge_into k b (insert j (merge_value v (lookup j out)) out) u.2
    ∙ ground (arith, lookup-insert j k (merge_value v (lookup j out)) out, eq_iff j k)

-- The merge of two maps in which no key stands twice holds at a key the value of the second map,
-- merged with the value of the first if there is one, and else what the first map holds.
pub lookup-merge :
    (k : String) (a b : Fields)
    → IsMap a
    → IsMap b
    → lookup k (merge_values a b) ≡ merged (lookup k b) (lookup k a)
unfolding merge_values
lookup-merge k a b ua ub = lookup-merge_into k b _ ub ∙ rw (copy_into-end a ua)

abbrev pub IsMapOption : Option Any → Type 0
IsMapOption none = Unit
IsMapOption (some v) = IsMapValue v

pub lookup-IsMapOption : (k : String) (m : Fields) → IsMap m → IsMapOption (lookup k m)
unfolding lookup
lookup-IsMapOption k end u = tt
lookup-IsMapOption k (field j v m) u = ground (arith, lookup-IsMapOption k m u.2)

-- The loop keeps `out` a map, and every value that it stores is made of maps.
mutual
  unfolding merge_into

  pub merge_into-IsMap : (b out : Fields) → IsMap b → IsMap out → IsMap (merge_into b out)
  merge_into-IsMap end out ub uo = uo
  merge_into-IsMap (field k v b) out ub uo =
      merge_into-IsMap b (insert k (merge_value v (lookup k out)) out) ub.2 (
        insert-IsMap k (merge_value v (lookup k out)) out uo
          (merge_value-IsMapValue v (lookup k out) ub.1 (lookup-IsMapOption k out uo)))

  pub merge_value-IsMapValue :
      (v : Any) (old : Option Any) → IsMapValue v → IsMapOption old → IsMapValue (merge_value v old)
  merge_value-IsMapValue (object m) (some (object n)) uv uo =
      rw (copy_into-end n uo) (merge_into-IsMap m n uv uo)
  merge_value-IsMapValue (object m) (some nil_object) uv uo = merge_into-IsMap m end uv tt
  merge_value-IsMapValue (object m) _ uv uo = uv
  merge_value-IsMapValue nil_object (some (object n)) uv uo = rw (copy_into-end n uo) uo
  merge_value-IsMapValue nil_object _ uv uo = tt
  merge_value-IsMapValue v old uv uo = uv

-- If no key stands twice in either of two maps, at any depth, then none does in their merge.
pub merge-IsMap : (a b : Fields) → IsMap a → IsMap b → IsMap (merge_values a b)
unfolding merge_values
merge-IsMap a b ua ub = merge_into-IsMap b _ ub (rw (copy_into-end a ua) ua)
