-- ===== src/Values/Paths.antt =====
-- Values at a path of keys, a view of nested maps that forgets the order of their entries.
use pluma_opeartor.Base.{
  String, ◌≡◌, Bool, true, false, ◌&&◌, Option, none, some, List, [], ◌∷◌, arith, Option-cases, inl,
  inr, is_some,
}
use pluma_opeartor.Values.{Any, lookup, as_object}

abbrev pub is_object : Any → Bool
is_object v = is_some (as_object v)

-- The entry of a value that is a map.
abbrev pub entry : String → Any → Option Any
entry k v = elim (as_object v) [ none ↦ none | some m ↦ lookup k m ]

-- `v[k1][k2]…`, where each step but the last meets a map that has the key.
unfoldable pub at : List String → Any → Option Any
at [] v = some v
at (k ∷ p) v = elim (entry k v) [ none ↦ none | some w ↦ at p w ]

-- The value says nothing of the path: walking down, a map without the key is met.
unfoldable pub is_silent : List String → Any → Bool
is_silent [] v = false
is_silent (k ∷ p) v = is_object v && elim (entry k v) [ none ↦ true | some w ↦ is_silent p w ]

pub at-none_of_silent : (p : List String) (v : Any) → is_silent p v ≡ true → at p v ≡ none
unfolding at is_silent
at-none_of_silent [] v h = ground arith
at-none_of_silent (k ∷ p) v h = elim (Option-cases (entry k v)) [
  | inl e ↦ rw (e, at)
  | inr (w, e) ↦ rw (e, at) (at-none_of_silent p w (ground arith))
]
