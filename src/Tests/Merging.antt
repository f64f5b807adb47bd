-- ===== src/Tests/Merging.antt =====
-- `MergeValues` and `DeepEqual` on small maps, and the name of a phase.
use pluma_opeartor.Base.{◌≡◌, refl, true, false, some, [], ◌∷◌}
use pluma_opeartor.Values.{text, bool, object, Fields, end, field, lookup, insert, IsMap, NoNil}
use pluma_opeartor.Values.Paths.{at, is_silent}
use pluma_opeartor.Values.Merge.{merge_values, merge_into, copy_into}
use pluma_opeartor.Values.Merge.Paths.{merge_overrides, merge_keeps}
use pluma_opeartor.Values.Merge.Lookup.{merge-IsMap}
use pluma_opeartor.Values.Merge.Abstract.{go_map, empty_map, merge_maps, merge_values-merge_maps}

abbrev globals : Fields
globals =
    field "global" (object (field "hub" (text "docker.io") (field "tag" (text "1.20") end)))
      (field "debug" (bool true) end)

abbrev overrides : Fields
overrides = field "global" (object (field "tag" (text "1.21") end)) end

globals-IsMap : IsMap globals
unfolding lookup
globals-IsMap = (refl, (refl, tt, (refl, tt, tt)), (refl, tt, tt))

overrides-IsMap : IsMap overrides
unfolding lookup
overrides-IsMap = (refl, (refl, tt, tt), tt)

merge_test :
    merge_values globals overrides
    ≡ field "global"
        (object (field "hub" (text "docker.io") (field "tag" (text "1.21") end)))
        (field "debug" (bool true) end)
unfolding merge_values merge_into copy_into insert lookup
merge_test = refl

merge_overrides_example :
    at ("global" ∷ "tag" ∷ []) (object (merge_values globals overrides)) ≡ some (text "1.21")
unfolding at lookup
merge_overrides_example =
    merge_overrides ("global" ∷ "tag" ∷ []) globals overrides globals-IsMap overrides-IsMap
      (text "1.21") refl refl

merge_keeps_example :
    at ("global" ∷ "hub" ∷ []) (object (merge_values globals overrides))
    ≡ at ("global" ∷ "hub" ∷ []) (object globals)
unfolding is_silent lookup
merge_keeps_example =
    merge_keeps ("global" ∷ "hub" ∷ []) globals overrides globals-IsMap overrides-IsMap refl

abbrev two : Fields
two = field "a" (bool true) (field "b" (bool false) end)

abbrev swapped : Fields
swapped = field "b" (bool false) (field "a" (bool true) end)

two-IsMap : IsMap two
unfolding lookup
two-IsMap = (refl, tt, (refl, tt, tt))

swapped-IsMap : IsMap swapped
unfolding lookup
swapped-IsMap = (refl, tt, (refl, tt, tt))

merge_values-merge_maps_example :
    (go_map (merge_values two two) (merge-IsMap two two two-IsMap two-IsMap)
      ≡ merge_maps (go_map two two-IsMap) (go_map two two-IsMap))
    × (merge_maps (go_map swapped swapped-IsMap) empty_map ≡ go_map swapped swapped-IsMap)
    × (merge_maps empty_map (go_map swapped swapped-IsMap) ≡ go_map swapped swapped-IsMap)
    × (NoNil two
        → merge_maps
            (merge_maps (go_map two two-IsMap) (go_map two two-IsMap))
            (go_map two two-IsMap)
          ≡ merge_maps (go_map two two-IsMap) (go_map two two-IsMap))
merge_values-merge_maps_example =
    merge_values-merge_maps two two two-IsMap two-IsMap (go_map swapped swapped-IsMap)
