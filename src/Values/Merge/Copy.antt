-- ===== src/Values/Merge/Copy.antt =====
-- The first loop of `MergeValues` copies its map.
use pluma_opeartor.Base.{
  String, ◌≡◌, refl, true, none, is_some, eq_refl, sym, ◌∙◌, eq_iff, arith, ap,
}
use pluma_opeartor.Values.{Any, Fields, end, field, lookup, insert, IsMap}
use pluma_opeartor.Values.Lookup.{lookup-insert}
use pluma_opeartor.Values.Merge.{copy_into}

append : Fields → Fields → Fields
append end n = n
append (field k v m) n = field k v (append m n)

append-end : (m : Fields) → append m end ≡ m
unfolding append
append-end end = refl
append-end (field k v m) = ap (field k v) (append-end m)

append-insert :
    (k : String) (v : Any) (m n : Fields)
    → lookup k m ≡ none
    → append (insert k v m) n ≡ append m (field k v n)
unfolding append insert lookup
append-insert k v end n h = refl
append-insert k v (field j w m) n h = ground (arith, append-insert k v m n)

copy_into-eq-append :
    (a out : Fields)
    → IsMap a
    → ((j : String) → is_some (lookup j a) ≡ true → lookup j out ≡ none)
    → copy_into a out ≡ append out a
unfolding copy_into lookup
copy_into-eq-append end out u h = sym (append-end out)
copy_into-eq-append (field k v a) out u h =
    copy_into-eq-append a (insert k v out) u.2
      (λ j hj. ground (arith, lookup-insert k j v out, eq_iff k j, h j))
    ∙ append-insert k v out a (ground (arith, h k, eq_refl k))

-- A copy made into an empty map is the map.
pub copy_into-end : (a : Fields) → IsMap a → copy_into a end ≡ a
unfolding append lookup
copy_into-end a u = copy_into-eq-append a end u (λ j h. refl)
