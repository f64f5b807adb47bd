-- ===== src/Api/PhaseNames.antt =====
-- The maps `Phase_name` and `Phase_value` of apis/operator/v1alpha1/helmapp.pb.go.
use pluma_opeartor.Base.{ℕ, String, ◌≡◌, refl, Option, none, some, [], ◌∷◌, eqb, if◌then◌else◌}
use pluma_opeartor.Base.Dict
use pluma_opeartor.Base.Dict.{Dict}
use pluma_opeartor.Api.{Phase, unknown, reconciling, succeeded, failed, deleting}

-- `x.Number()`
unfoldable pub number : Phase → ℕ
number unknown = 0
number reconciling = 1
number succeeded = 2
number failed = 3
number deleting = 4

-- `Phase_name`
unfoldable pub phase_name : ℕ → Option String
phase_name n =
    if eqb n 0
    then some "UNKNOWN"
    else if eqb n 1
    then some "RECONCILING"
    else if eqb n 2
    then some "SUCCEEDED"
    else if eqb n 3
    then some "FAILED"
    else if eqb n 4
    then some "DELETING"
    else none

-- `Phase_value`
unfoldable pub phase_value : Dict ℕ
phase_value =
    ("UNKNOWN", 0) ∷ ("RECONCILING", 1) ∷ ("SUCCEEDED", 2) ∷ ("FAILED", 3) ∷ ("DELETING", 4) ∷ []

-- The name of a phase, looked up in both maps.
abbrev pub through_names : Phase → Option ℕ
unfolding phase_name number
through_names p = elim (phase_name (number p)) [
  | none ↦ none
  | some name ↦ Dict.lookup name phase_value
]

-- Every phase has a name in `Phase_name`, and `Phase_value` takes the name back to its number.
pub value-name : (p : Phase) → through_names p ≡ some (number p)
unfolding phase_value phase_name number Dict.lookup
value-name unknown = refl
value-name reconciling = refl
value-name succeeded = refl
value-name failed = refl
value-name deleting = refl
