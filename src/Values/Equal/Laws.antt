-- ===== src/Values/Equal/Laws.antt =====
-- What an answer of `reflect.DeepEqual` means.
use pluma_opeartor.Base.{
  String, ◌≡◌, refl, true, false, Option, none, some, ◌==◌, eq_iff, eq_refl, eqb_refl, arith, inl,
  inr, Option-cases, Bool-cases, subst, subst₂, List, [], ◌∷◌, and_intro,
}
use pluma_opeartor.Values.{
  Any, null, bool, number, int64, text, list, object, nil_object, pointer, Items, nil, cons, Fields,
  end, field, lookup, size, IsMap, IsMapValue, IsMapItems,
}
use pluma_opeartor.Values.Paths.{at, entry}
use pluma_opeartor.Values.Equal.{is_nan, deep_equal, deep_equal_items, deep_equal_maps, includes}

-- No number is NaN. JSON, and so a stored `Struct`, has none.
abbrev mutual
  pub NoNan : Fields → Type 0
  NoNan end = Unit
  NoNan (field k v m) = NoNanValue v × NoNan m

  pub NoNanValue : Any → Type 0
  NoNanValue (number p) = is_nan p ≡ false
  NoNanValue (list xs) = NoNanItems xs
  NoNanValue (object m) = NoNan m
  NoNanValue _ = Unit

  pub NoNanItems : Items → Type 0
  NoNanItems nil = Unit
  NoNanItems (cons v xs) = NoNanValue v × NoNanItems xs

includes-field :
    (k : String) (v w : Any) (m n : Fields)
    → lookup k n ≡ some w
    → deep_equal v w ≡ true
    → includes n m ≡ true
    → includes n (field k v m) ≡ true
unfolding deep_equal
includes-field k v w m n e h t = rw (e, includes) (and_intro h t)

mutual
  unfolding deep_equal lookup

  deep_equal_refl : (v : Any) → IsMapValue v → NoNanValue v → deep_equal v v ≡ true
  deep_equal_refl null u z = refl
  deep_equal_refl (bool b) u z = ground arith
  deep_equal_refl (number p) u z = ground arith
  deep_equal_refl (int64 p) u z = eqb_refl p
  deep_equal_refl (text s) u z = eq_refl s
  deep_equal_refl (list xs) u z = deep_equal_items_refl xs u z
  deep_equal_refl (object m) u z =
      and_intro (eqb_refl (size m)) (includes_refl m m u z (λ k v h. h))
  deep_equal_refl nil_object u z = refl
  deep_equal_refl (pointer a) u z = eqb_refl a

  deep_equal_items_refl :
      (xs : Items) → IsMapItems xs → NoNanItems xs → deep_equal_items xs xs ≡ true
  deep_equal_items_refl nil u z = refl
  deep_equal_items_refl (cons v xs) u z =
      and_intro (deep_equal_refl v u.0 z.0) (deep_equal_items_refl xs u.1 z.1)

  includes_refl :
      (m n : Fields)
      → IsMap m
      → NoNan m
      → ((k : String) (v : Any) → lookup k m ≡ some v → lookup k n ≡ some v)
      → includes n m ≡ true
  includes_refl end n u z h = refl
  includes_refl (field k v m) n u z h =
      includes-field k v v m n (h k v (ground (arith, eq_refl k))) (deep_equal_refl v u.1 z.0)
        (includes_refl m n u.2 z.1 (λ j w e. h j w (ground (arith, eq_iff k j))))

-- A map that holds no NaN, and in which no key stands twice, at any depth, is equal to itself.
pub deep_equal_maps_refl : (m : Fields) → IsMap m → NoNan m → deep_equal_maps m m ≡ true
unfolding deep_equal_maps
deep_equal_maps_refl m u z = deep_equal_refl (object m) u z

-- An equal value, if there is one.
abbrev pub EqualOption : Any → Option Any → Type 0
EqualOption v none = ⊥
EqualOption v (some w) = deep_equal v w ≡ true

includes_inv :
    (j : String) (w : Any) (m n : Fields)
    → includes n (field j w m) ≡ true
    → EqualOption w (lookup j n) × (includes n m ≡ true)
unfolding deep_equal
includes_inv j w m n h = elim (Option-cases (lookup j n)) [
  | inl e ↦ absurd (ground arith)
  | inr (w', e) ↦ rw e (ground arith, ground arith)
]

lookup-includes :
    (k : String) (v : Any) (m n : Fields)
    → includes n m ≡ true
    → lookup k m ≡ some v
    → EqualOption v (lookup k n)
lookup-includes k v end n h e = unfold lookup in cc
lookup-includes k v (field j w m) n h e = elim (Bool-cases (j == k)) [
  | inl s ↦
      let same : w ≡ v = unfold lookup in ground arith in
      subst₂ (λ x i. EqualOption x (lookup i n)) same ((eq_iff j k).0 s) (includes_inv j w m n h).0
  | inr s ↦ lookup-includes k v m n (includes_inv j w m n h).1 (unfold lookup in ground arith)
]

entry-deep_equal :
    (k : String) (v w : Any) {x : Any}
    → deep_equal v w ≡ true
    → entry k v ≡ some x
    → EqualOption x (entry k w)
unfolding deep_equal
entry-deep_equal k (object m) (object n) {x} h e = lookup-includes k x m n (ground arith) e
entry-deep_equal k (object m) w {x} h e = cc
entry-deep_equal k nil_object w {x} h e = unfold lookup in cc
entry-deep_equal k v w h e = cc

-- Values that `DeepEqual` calls equal hold equal values at every path at which the first holds one.
pub at-deep_equal :
    (p : List String) (v w x : Any)
    → deep_equal v w ≡ true
    → at p v ≡ some x
    → EqualOption x (at p w)
unfolding at
at-deep_equal [] v w x h e = subst (λ y. deep_equal y w ≡ true) (ground arith) h
at-deep_equal (k ∷ p) v w x h e = elim (Option-cases (entry k v)) [
  | inl f ↦ absurd (ground arith)
  | inr (v', f) ↦ elim (Option-cases (entry k w)) [
    | inl g ↦ absurd (rw g at (entry-deep_equal k v w h f))
    | inr (w', g) ↦
        rw (g, at) (at-deep_equal p v' w' x (rw g at (entry-deep_equal k v w h f)) (ground arith))
  ]
]
