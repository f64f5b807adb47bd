-- ===== src/Values/Merge/Paths.antt =====
-- The precedence of the two maps of `MergeValues`, at every depth.
use pluma_opeartor.Base.{
  String, ◌≡◌, refl, true, false, ◌&&◌, Option, none, some, arith, ◌∙◌, ap, List, [], ◌∷◌,
  Option-cases, subst, inl, inr, Bool-cases,
}
use pluma_opeartor.Values.{Any, object, nil_object, Fields, end, lookup, IsMap, IsMapValue}
use pluma_opeartor.Values.Paths.{is_object, entry, at, is_silent, at-none_of_silent}
use pluma_opeartor.Values.Merge.{merge_into, merge_value, merge_values}
use pluma_opeartor.Values.Merge.Copy.{copy_into-end}
use pluma_opeartor.Values.Merge.Lookup.{IsMapOption, lookup-IsMapOption, merged, lookup-merge_into}

pub merge_value-none : (v : Any) → merge_value v none ≡ v
unfolding merge_into
merge_value-none (object m) = refl
merge_value-none nil_object = refl
merge_value-none _ = refl

-- Two maps are merged into a map, key by key.
pub entry-merge_value :
    (k : String) (v w : Any)
    → IsMapValue v
    → IsMapValue w
    → is_object v ≡ true
    → is_object w ≡ true
    → entry k (merge_value v (some w)) ≡ merged (entry k v) (entry k w)
unfolding merge_into lookup
entry-merge_value k (object m) (object n) uv uw e f =
    lookup-merge_into k m _ uv ∙ rw (copy_into-end n uw)
entry-merge_value k (object m) nil_object uv uw e f = lookup-merge_into k m end uv
entry-merge_value k nil_object (object n) uv uw e f = rw (copy_into-end n uw)
entry-merge_value k nil_object nil_object uv uw e f = refl
entry-merge_value k (object m) w uv uw e f = ground arith
entry-merge_value k nil_object w uv uw e f = ground arith
entry-merge_value k v w uv uw e f = ground arith

-- Otherwise the new value replaces the old one.
pub merge_value-eq_new :
    (v w : Any) → (is_object v && is_object w) ≡ false → merge_value v (some w) ≡ v
unfolding merge_into
merge_value-eq_new (object m) (object n) h = ground arith
merge_value-eq_new (object m) nil_object h = ground arith
merge_value-eq_new nil_object (object n) h = ground arith
merge_value-eq_new nil_object nil_object h = ground arith
merge_value-eq_new (object m) w h = refl
merge_value-eq_new nil_object w h = refl
merge_value-eq_new v w h = refl

pub entry-IsMapOption : (k : String) (v : Any) → IsMapValue v → IsMapOption (entry k v)
entry-IsMapOption k (object m) u = lookup-IsMapOption k m u
entry-IsMapOption k nil_object u = unfold lookup in tt
entry-IsMapOption k _ u = tt

-- A value of `b` that is no map stands at its path in the merge.
at-merge_value_new :
    (p : List String) (v : Any) (old : Option Any) (x : Any)
    → IsMapValue v
    → IsMapOption old
    → at p v ≡ some x
    → is_object x ≡ false
    → at p (merge_value v old) ≡ some x
unfolding at
at-merge_value_new p v none x uv uo h s = rw merge_value-none h
at-merge_value_new [] v (some w) x uv uo h s = ap some (merge_value-eq_new v w (ground arith)) ∙ h
at-merge_value_new (k ∷ p) v (some w) x uv uo h s = elim (Bool-cases (is_object v && is_object w)) [
  | inr f ↦ rw (merge_value-eq_new v w f) h
  | inl t ↦ elim (Option-cases (entry k v)) [
    | inl e ↦ absurd (ground arith)
    | inr (v', e) ↦
        rw (entry-merge_value k v w uv uo (ground arith) (ground arith), e, at)
          (at-merge_value_new p v' (entry k w) x (subst IsMapOption e (entry-IsMapOption k v uv))
            (entry-IsMapOption k w uo) (ground arith) s)
  ]
]

-- Where `b` is silent, the merge has what `a` has.
at-merge_value_old :
    (p : List String) (v w : Any)
    → IsMapValue v
    → IsMapValue w
    → is_silent p v ≡ true
    → at p (merge_value v (some w)) ≡ at p w
unfolding at is_silent
at-merge_value_old [] v w uv uw h = ground arith
at-merge_value_old (k ∷ p) v w uv uw h = elim (Bool-cases (is_object w)) [
  | inr f ↦
      rw (merge_value-eq_new v w (ground arith)) (at-none_of_silent (k ∷ p) v h ∙ ground arith)
  | inl t ↦ elim (Option-cases (entry k v)) [
    | inl e ↦ rw (entry-merge_value k v w uv uw (ground arith) t, e, at) refl
    | inr (v', e) ↦ elim (Option-cases (entry k w)) [
      | inl f ↦
          rw (entry-merge_value k v w uv uw (ground arith) t, e, f, at)
            (rw merge_value-none (at-none_of_silent p v' (ground arith)))
      | inr (w', f) ↦
          rw (entry-merge_value k v w uv uw (ground arith) t, e, f, at)
            (at-merge_value_old p v' w' (subst IsMapOption e (entry-IsMapOption k v uv))
              (subst IsMapOption f (entry-IsMapOption k w uw)) (ground arith))
    ]
  ]
]

module _ (p : List String) (a b : Fields) (ua : IsMap a) (ub : IsMap b) where
  at-merge : at p (object (merge_values a b)) ≡ at p (merge_value (object b) (some (object a)))
  unfolding merge_values
  at-merge = refl

  -- The merge of two maps in which no key stands twice, at any depth: at every path of keys, however
  -- deep, at which the second map holds a value that is no map, the merge holds that value.
  pub merge_overrides :
      (x : Any)
      → at p (object b) ≡ some x
      → is_object x ≡ false
      → at p (object (merge_values a b)) ≡ some x
  merge_overrides x h s = at-merge ∙ at-merge_value_new p (object b) (some (object a)) x ub ua h s

  -- The merge of two maps in which no key stands twice, at any depth: at every path of keys of which
  -- the second map is silent, since walking down meets a map without the key, the merge holds what
  -- the first map holds there.
  pub merge_keeps :
      is_silent p (object b) ≡ true → at p (object (merge_values a b)) ≡ at p (object a)
  merge_keeps h = at-merge ∙ at-merge_value_old p (object b) (object a) ub ua h
