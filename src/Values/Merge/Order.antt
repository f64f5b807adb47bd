-- ===== src/Values/Merge/Order.antt =====
-- `MergeValues` does not look at the order of the entries, at any depth.
use pluma_opeartor.Base.{
  String, ◌≡◌, refl, sym, ap, ap₂, ◌∙◌, Bool, true, false, ◌&&◌, Option, none, some, List, [], ◌∷◌,
  arith, Bool-cases, inl, inr,
}
use pluma_opeartor.Values.{Any, object, nil_object, end, IsMapValue}
use pluma_opeartor.Values.Paths.{is_object, entry, at}
use pluma_opeartor.Values.Merge.{merge_into, merge_value}
use pluma_opeartor.Values.Merge.Lookup.{IsMapOption, merged}
use pluma_opeartor.Values.Merge.Paths.{
  merge_value-none, merge_value-eq_new, entry-merge_value, entry-IsMapOption,
}

-- A value without the entries, if it is a map.
abbrev pub shape : Any → Any
shape (object m) = object end
shape v = v

abbrev pub shape_option : Option Any → Option Any
shape_option none = none
shape_option (some v) = some (shape v)

-- What is seen at the end of a path.
unfoldable pub seen : List String → Option Any → Option Any
unfolding at
seen p none = none
seen p (some v) = shape_option (at p v)

-- Nothing tells the two apart: at each path of keys both hold nothing, both a map, or both the same
-- value.
abbrev pub SameOption : Option Any → Option Any → Type 0
SameOption o o' = (p : List String) → seen p o ≡ seen p o'

pub seen-cons :
    (k : String) (p : List String) (v : Any) → seen (k ∷ p) (some v) ≡ seen p (entry k v)
unfolding seen at
seen-cons k p v =
    elim (entry k v) as (λ o. shape_option (elim o [ none ↦ none | some w ↦ at p w ]) ≡ seen p o) [
      | none ↦ refl
      | some w ↦ refl
    ]

is_object_option : Option Any → Bool
is_object_option none = false
is_object_option (some v) = is_object v

is_object-shape : (v : Any) → is_object_option (some (shape v)) ≡ is_object v
unfolding is_object_option
is_object-shape (object m) = refl
is_object-shape v = refl

same-is_object : (v v' : Any) → SameOption (some v) (some v') → is_object v ≡ is_object v'
unfolding seen at
same-is_object v v' h = sym (is_object-shape v) ∙ ap is_object_option (h []) ∙ is_object-shape v'

-- Two maps merge into a map.
shape-merge_value :
    (v w : Any)
    → is_object v ≡ true
    → is_object w ≡ true
    → shape (merge_value v (some w)) ≡ object end
unfolding merge_into
shape-merge_value (object m) (object n) e f = refl
shape-merge_value (object m) nil_object e f = refl
shape-merge_value nil_object (object n) e f = refl
shape-merge_value nil_object nil_object e f = refl
shape-merge_value (object m) w e f = ground arith
shape-merge_value nil_object w e f = ground arith
shape-merge_value v w e f = ground arith

both_objects : (a b : Bool) → (a && b) ≡ true → (a ≡ true) × (b ≡ true)
both_objects a b h = ground arith

none_seen : (v : Any) → SameOption none (some v) → ⊥
none_seen v h = let e = h [] in (unfold seen at in cc)

-- Both values are maps, and the entries under the first key of the path merge alike.
maps-merge :
    (k : String) (p : List String) (v v' w w' : Any)
    → IsMapValue v
    → IsMapValue v'
    → IsMapValue w
    → IsMapValue w'
    → (is_object v && is_object w) ≡ true
    → (is_object v' && is_object w') ≡ true
    → seen p (merged (entry k v) (entry k w)) ≡ seen p (merged (entry k v') (entry k w'))
    → seen (k ∷ p) (some (merge_value v (some w))) ≡ seen (k ∷ p) (some (merge_value v' (some w')))
maps-merge k p v v' w w' uv uv' uw uw' t t' ih =
    let (e, f) = both_objects (is_object v) (is_object w) t in
    let (e', f') = both_objects (is_object v') (is_object w') t' in
    seen-cons k p (merge_value v (some w))
    ∙ ap (seen p) (entry-merge_value k v w uv uw e f)
    ∙ ih
    ∙ sym (ap (seen p) (entry-merge_value k v' w' uv' uw' e' f'))
    ∙ sym (seen-cons k p (merge_value v' (some w')))

same-entry :
    (k : String) (v v' : Any) → SameOption (some v) (some v') → SameOption (entry k v) (entry k v')
same-entry k v v' h q = sym (seen-cons k q v) ∙ h (k ∷ q) ∙ seen-cons k q v'

same-test :
    (v v' w w' : Any)
    → SameOption (some v) (some v')
    → SameOption (some w) (some w')
    → (is_object v' && is_object w') ≡ (is_object v && is_object w)
same-test v v' w w' h k =
    ap₂ (λ a b. a && b) (sym (same-is_object v v' h)) (sym (same-is_object w w' k))

-- What tells nothing apart before the merge tells nothing apart behind it.
pub seen-merged :
    (p : List String) (v v' w w' : Option Any)
    → IsMapOption v
    → IsMapOption v'
    → IsMapOption w
    → IsMapOption w'
    → SameOption v v'
    → SameOption w w'
    → seen p (merged v w) ≡ seen p (merged v' w')
seen-merged p none none w w' uv uv' uw uw' h k = k p
seen-merged p none (some v') w w' uv uv' uw uw' h k = absurd (none_seen v' h)
seen-merged p (some v) none w w' uv uv' uw uw' h k = absurd (none_seen v (λ q. sym (h q)))
seen-merged p (some v) (some v') none none uv uv' uw uw' h k =
    rw (merge_value-none v, merge_value-none v') (h p)
seen-merged p (some v) (some v') none (some w') uv uv' uw uw' h k = absurd (none_seen w' k)
seen-merged p (some v) (some v') (some w) none uv uv' uw uw' h k =
    absurd (none_seen w (λ q. sym (k q)))
seen-merged [] (some v) (some v') (some w) (some w') uv uv' uw uw' h k =
    elim (Bool-cases (is_object v && is_object w)) [
      | inl t ↦
          let (e, f) = both_objects (is_object v) (is_object w) t in
          let (e', f') = both_objects (is_object v') (is_object w') (same-test v v' w w' h k ∙ t) in
          unfold seen at in
          ap some (shape-merge_value v w e f ∙ sym (shape-merge_value v' w' e' f'))
      | inr t ↦
          rw (merge_value-eq_new v w t, merge_value-eq_new v' w' (same-test v v' w w' h k ∙ t))
            (h [])
    ]
seen-merged (j ∷ p) (some v) (some v') (some w) (some w') uv uv' uw uw' h k =
    elim (Bool-cases (is_object v && is_object w)) [
      | inl t ↦ maps-merge j p v v' w w' uv uv' uw uw' t (same-test v v' w w' h k ∙ t) (
          seen-merged p (entry j v) (entry j v') (entry j w) (entry j w') (entry-IsMapOption j v uv)
            (entry-IsMapOption j v' uv') (entry-IsMapOption j w uw) (entry-IsMapOption j w' uw')
            (same-entry j v v' h) (same-entry j w w' k))
      | inr t ↦
          rw (merge_value-eq_new v w t, merge_value-eq_new v' w' (same-test v v' w w' h k ∙ t))
            (h (j ∷ p))
    ]
