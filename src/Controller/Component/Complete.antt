-- ===== src/Controller/Component/Complete.antt =====
-- Releases that have their `Info` and their `Chart`, so that the sync of a component can read them.
use pluma_opeartor.Base.{String, ◌≡◌, Option, none, some, List, All}
use pluma_opeartor.Values.{Fields}
use pluma_opeartor.Effects.{ok}
use pluma_opeartor.Cluster.{Cluster, Release, Install, Upgrade}

-- Neither `Info`, nor `Chart`, nor its metadata is nil.
abbrev pub IsComplete : Release → Type 0
IsComplete release =
    (state : String) × (version : String) × (release.status ≡ some state)
    × (release.chart_version ≡ some version)

abbrev pub IsCompleteOption : Option Release → Type 0
IsCompleteOption none = Unit
IsCompleteOption (some release) = IsComplete release

-- Helm's releases are complete: those that it has stored, and those that it has just made.
pub record CompleteLaws (c : Cluster) : Type 0 where
  pub history-IsComplete :
      (cfg : c.Config) (n : String) (w : c.World) (releases : List Release)
      → (c.history cfg n w).0 ≡ ok releases
      → All IsComplete releases
  pub install-IsComplete :
      (cfg : c.Config) (i : Install) (chart : c.Chart) (values : Fields) (w : c.World)
      → IsCompleteOption (c.install cfg i chart values w).0.0
  pub upgrade-IsComplete :
      (cfg : c.Config) (u : Upgrade) (n : String) (chart : c.Chart) (values : Fields) (w : c.World)
      → IsCompleteOption (c.upgrade cfg u n chart values w).0.0
