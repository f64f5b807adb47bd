-- ===== src/Values/Merge/Again.antt =====
-- `MergeValues` is stable: merging the same values in once more changes nothing.
use pluma_opeartor.Base.{
  String, ◌≡◌, refl, Option, none, some, ◌==◌, eq_iff, eq_refl, arith, ◌∙◌, ap, sym, inl, inr,
  Bool-cases,
}
use pluma_opeartor.Values.{
  Any, object, nil_object, Fields, end, field, lookup, IsMap, IsMapValue, NoNil, NoNilValue,
}
use pluma_opeartor.Values.Lookup.{insert_same}
use pluma_opeartor.Values.Merge.{copy_into, merge_into, merge_value, merge_values}
use pluma_opeartor.Values.Merge.Copy.{copy_into-end}
use pluma_opeartor.Values.Merge.Paths.{merge_value-none}
use pluma_opeartor.Values.Merge.Lookup.{
  IsMapOption, lookup-IsMapOption, merged, lookup-merge_into, merge_into-IsMap,
}

-- A map whose entries are what the loop would store is left as it is.
merge_into_fixed :
    (b out : Fields)
    → IsMap b
    → ((k : String) → merged (lookup k b) (lookup k out) ≡ lookup k out)
    → merge_into b out ≡ out
unfolding merge_into lookup
merge_into_fixed end out u h = refl
merge_into_fixed (field j v b) out u h =
    ap (merge_into b)
      (insert_same j (merge_value v (lookup j out)) out (sym (ground (arith, h j, eq_refl j))))
    ∙ merge_into_fixed b out u.2 (λ k. ground (arith, h k, eq_iff j k))

module _ (m n : Fields) (um : IsMap m) (un : IsMap n) where
  merge_into_again :
      ((k : String)
        → merged (lookup k m) (merged (lookup k m) (lookup k n)) ≡ merged (lookup k m) (lookup k n))
      → merge_into m (copy_into (merge_into m (copy_into n end)) end)
        ≡ merge_into m (copy_into n end)
  merge_into_again h =
      rw (copy_into-end n un, copy_into-end _ (merge_into-IsMap m n um un))
        (merge_into_fixed m (merge_into m n) um (λ k. rw (lookup-merge_into k m n um) (h k)))

pub merged-none : (o : Option Any) → merged o none ≡ o
merged-none none = refl
merged-none (some v) = ap some (merge_value-none v)

mutual
  unfolding merge_into lookup

  merge_value_again :
      (v : Any) (old : Option Any)
      → IsMapValue v
      → NoNilValue v
      → IsMapOption old
      → merge_value v (some (merge_value v old)) ≡ merge_value v old
  merge_value_again (object m) (some (object n)) u z uo = ap object (
      merge_into_again m n u uo
        (λ k. merged_again m k (lookup k n) u z (lookup-IsMapOption k n uo)))
  merge_value_again (object m) (some nil_object) u z uo = ap object (
      merge_into_again m end u tt
        (λ k. merged_again m k (lookup k end) u z (lookup-IsMapOption k end tt)))
  merge_value_again (object m) _ u z uo = ap object (
      ap (merge_into m) (copy_into-end m u)
      ∙ merge_into_fixed m m u (λ k.
        ap (merged (lookup k m)) (sym (merged-none (lookup k m)))
        ∙ merged_again m k none u z tt
        ∙ merged-none (lookup k m)))
  merge_value_again nil_object old u z uo = absurd z
  merge_value_again _ _ u z uo = refl

  merged_again :
      (m : Fields) (k : String) (old : Option Any)
      → IsMap m
      → NoNil m
      → IsMapOption old
      → merged (lookup k m) (merged (lookup k m) old) ≡ merged (lookup k m) old
  merged_again end k old u z uo = refl
  merged_again (field j v m) k old u z uo = elim (Bool-cases (j == k)) [
    | inl e ↦ rw (e, lookup) (ap some (merge_value_again v old u.1 z.0 uo))
    | inr e ↦ rw (e, lookup) (merged_again m k old u.2 z.1 uo)
  ]

module _ (a b : Fields) (ua : IsMap a) (ub : IsMap b) where
  -- Merging the same values in a second time changes nothing, not even the order of the entries, if
  -- no key stands twice in either map, at any depth, and the second holds no nil map.
  pub merge_twice : NoNil b → merge_values (merge_values a b) b ≡ merge_values a b
  unfolding merge_values
  merge_twice z =
      merge_into_again b a ub ua
        (λ k. merged_again b k (lookup k a) ub z (lookup-IsMapOption k a ua))
