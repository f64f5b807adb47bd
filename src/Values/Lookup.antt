-- ===== src/Values/Lookup.antt =====
-- Reading a map after writing it, and what a write keeps.
use pluma_opeartor.Base.{
  String, ◌≡◌, refl, some, ◌==◌, inl, inr, Bool-cases, subst, eq_iff, arith, if◌then◌else◌,
}
use pluma_opeartor.Values.{Any, Fields, end, field, lookup, insert, IsMap, IsMapValue}

pub lookup-insert :
    (k j : String) (v : Any) (m : Fields)
    → lookup j (insert k v m) ≡ (if k == j then some v else lookup j m)
unfolding lookup insert
lookup-insert k j v end = refl
lookup-insert k j v (field i w m) =
    ground (arith, eq_iff k j, eq_iff i k, eq_iff i j, lookup-insert k j v m)

-- Writing what is there changes nothing, not even the order of the entries.
pub insert_same : (k : String) (v : Any) (m : Fields) → lookup k m ≡ some v → insert k v m ≡ m
unfolding lookup insert
insert_same k v end h = ground arith
insert_same k v (field j w m) h = ground (arith, insert_same k v m)

pub insert-IsMap :
    (k : String) (v : Any) (m : Fields) → IsMap m → IsMapValue v → IsMap (insert k v m)
unfolding insert lookup
insert-IsMap k v end h hv = (refl, hv, tt)
insert-IsMap k v (field j w m) h hv =
    ground (arith, insert-IsMap k v m h.2 hv, lookup-insert k j v m, eq_iff k j, eq_iff j k)

pub lookup-IsMapValue :
    (k : String) (v : Any) (m : Fields) → IsMap m → lookup k m ≡ some v → IsMapValue v
unfolding lookup
lookup-IsMapValue k v end h e = absurd (ground arith)
lookup-IsMapValue k v (field j w m) h e = elim (Bool-cases (j == k)) [
  | inl same ↦ subst IsMapValue (ground arith) h.1
  | inr other ↦ lookup-IsMapValue k v m h.2 (ground arith)
]
