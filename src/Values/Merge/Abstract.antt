-- ===== src/Values/Merge/Abstract.antt =====
-- `MergeValues` as an operation on Go's maps: association lists whose order is forgotten.
use mathlib.Core.Quot
use mathlib.Core.Quot.{Quot, Quot-set}
use pluma_opeartor.Base.{String, ◌≡◌, refl, sym, ap, ◌∙◌, some, List, [], ◌∷◌}
use pluma_opeartor.Values.{object, Fields, end, lookup, IsMap, NoNil}
use pluma_opeartor.Values.Merge.{merge_values, merge_into}
use pluma_opeartor.Values.Merge.Copy.{copy_into-end}
use pluma_opeartor.Values.Merge.Lookup.{lookup-merge, merge-IsMap}
use pluma_opeartor.Values.Merge.Order.{SameOption, seen, seen-cons, seen-merged}
use pluma_opeartor.Values.Paths.{at}
use pluma_opeartor.Values.Merge.Again.{merge_twice, merged-none}

-- The entries of a map, and of the maps in it, in some order.
abbrev pub Entries : Type 0
Entries = (m : Fields) × IsMap m

-- The same map in two orders, at any depth: at each path of keys both hold nothing, both a map, or both
-- the same value.
abbrev pub SameEntries : Entries → Entries → Type 0
SameEntries a b = SameOption (some (object a.0)) (some (object b.0))

abbrev pub GoMap : Type 0
GoMap = Quot SameEntries

abbrev pub go_map : (m : Fields) → IsMap m → GoMap
go_map m u = Quot.mk (m, u)

abbrev pub empty_map : GoMap
empty_map = go_map end tt

merge_entries : Entries → Entries → GoMap
merge_entries a b = go_map (merge_values a.0 b.0) (merge-IsMap a.0 b.0 a.1 b.1)

same_merge :
    (a a' b b' : Entries)
    → SameEntries a a'
    → SameEntries b b'
    → merge_entries a b ≡ merge_entries a' b'
unfolding merge_entries merge_values
same_merge a a' b b' h k = Quot.sound (λ p.
    seen-merged p (some (object b.0)) (some (object b'.0)) (some (object a.0)) (some (object a'.0))
      b.1 b'.1 a.1 a'.1 k h)

merge_first : Entries → GoMap → GoMap
merge_first a = Quot.lift Quot-set (merge_entries a) (λ b b' h. same_merge a a b b' (λ k. refl) h)

same_first : (a a' : Entries) → SameEntries a a' → (q : GoMap) → merge_first a q ≡ merge_first a' q
unfolding merge_first
same_first a a' h = Quot.ind (λ _. hlevel Quot-set) (λ b. same_merge a a' b b h (λ k. refl))

pub merge_maps : GoMap → GoMap → GoMap
merge_maps p q = Quot.lift Quot-set (λ a. merge_first a q) (λ a a' h. same_first a a' h q) p

merge_maps-empty : (q : GoMap) → merge_maps q empty_map ≡ q
unfolding merge_maps merge_first merge_entries merge_values merge_into
merge_maps-empty =
    Quot.ind (λ _. hlevel Quot-set) (λ a. Quot.sound (λ p. rw (copy_into-end a.0 a.1) refl))

lookup-merge_end : (k : String) (m : Fields) → IsMap m → lookup k (merge_values end m) ≡ lookup k m
unfolding lookup
lookup-merge_end k m u = lookup-merge k end m tt u ∙ merged-none (lookup k m)

empty-merge :
    (m : Fields)
    → IsMap m
    → (p : List String) → seen p (some (object (merge_values end m))) ≡ seen p (some (object m))
empty-merge m u [] = unfold seen at in refl
empty-merge m u (k ∷ p) =
    seen-cons k p (object (merge_values end m))
    ∙ ap (seen p) (lookup-merge_end k m u)
    ∙ sym (seen-cons k p (object m))

empty-merge_maps : (q : GoMap) → merge_maps empty_map q ≡ q
unfolding merge_maps merge_first merge_entries
empty-merge_maps = Quot.ind (λ _. hlevel Quot-set) (λ b. Quot.sound (empty-merge b.0 b.1))

-- `MergeValues` is an operation on Go's maps, in which no key stands twice at any depth: on maps that
-- are taken up to the order of their entries, and of the entries of the maps in them at any depth of
-- keys, there is one operation that it carries out, whatever order it meets the entries in. (The elements
-- of a list are compared as they stand.) The empty map is neutral for it on both sides, and merging a
-- map without nil maps in once more changes nothing.
pub merge_values-merge_maps :
    (a b : Fields) (ua : IsMap a) (ub : IsMap b) (q : GoMap)
    → (go_map (merge_values a b) (merge-IsMap a b ua ub) ≡ merge_maps (go_map a ua) (go_map b ub))
      × (merge_maps q empty_map ≡ q)
      × (merge_maps empty_map q ≡ q)
      × (NoNil b
          → merge_maps (merge_maps (go_map a ua) (go_map b ub)) (go_map b ub)
            ≡ merge_maps (go_map a ua) (go_map b ub))
unfolding merge_maps merge_first merge_entries
merge_values-merge_maps a b ua ub q = (
  refl,
  merge_maps-empty q,
  empty-merge_maps q,
  λ z. Quot.sound (λ k. ap (λ m. seen k (some (object m))) (merge_twice a b ua ub z)),
)
