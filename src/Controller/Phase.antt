-- ===== src/Controller/Phase.antt =====
-- `calculateOverallPhase`.
pub mod Laws
use pluma_opeartor.Base.{
  String, ◌≡◌, ◌≢◌, ◌↔◌, ◌⊎◌, refl, Bool, true, false, not, ◌==◌, List, [], ◌∷◌, eq_iff, arith, All,
  if◌then◌else◌, inl, inr,
}
use pluma_opeartor.Api.{
  HelmApp, HelmComponentStatus, Phase, unknown, reconciling, succeeded, failed, deleting,
}
use pluma_opeartor.Cluster.{Cluster}

-- The two flags of the loop.
pub record Flags : Type 0 where
  pub has_failure : Bool
  pub all_deployed : Bool

-- `hasFailure := false; allDeployed := true`
abbrev pub no_status : Flags
no_status = record { has_failure = false; all_deployed = true }

overall : Flags → Phase
overall f = if f.has_failure then failed else if f.all_deployed then succeeded else reconciling

module _ (c : Cluster) where
  -- The switch on one status.
  note_status : Flags → HelmComponentStatus → Flags
  note_status f s =
      if s.status == c.status_failed
      then record f { has_failure = true }
      else if s.status == c.status_deployed
      then f
      else record f { all_deployed = false }

  scan_statuses : Flags → List HelmComponentStatus → Flags
  scan_statuses f [] = f
  scan_statuses f (s ∷ statuses) = scan_statuses (note_status f s) statuses

  unfoldable pub calculate_overall_phase : HelmApp → List HelmComponentStatus → Phase
  unfolding note_status scan_statuses overall
  calculate_overall_phase app [] = unknown
  calculate_overall_phase app (s ∷ statuses) =
      if not (c.is_zero app.meta.deletion_timestamp)
      then deleting
      else overall (scan_statuses no_status (s ∷ statuses))

  abbrev pub IsFailed : HelmComponentStatus → Type 0
  IsFailed s = s.status ≡ c.status_failed

  abbrev pub IsDeployed : HelmComponentStatus → Type 0
  IsDeployed s = s.status ≡ c.status_deployed

  -- One of the statuses is a failure.
  abbrev pub HasFailed : List HelmComponentStatus → Type 0
  HasFailed [] = ⊥
  HasFailed (s ∷ statuses) = IsFailed s ⊎ HasFailed statuses
