-- ===== src/Tests/Spared.antt =====
-- A reconcile on the cluster in memory, to which a HelmApp was added: its releases stay.
use pluma_opeartor.Base.{String, ◌≡◌, ◌≢◌, refl, true, eq_iff, none, some, inr, List, ◌∷◌, arith}
use pluma_opeartor.Effects.{ok}
use pluma_opeartor.Cluster.{Cluster}
use pluma_opeartor.Controller.Component.Untouched.{ComponentLaws}
use pluma_opeartor.Controller.Reconcile.{reconcile}
use pluma_opeartor.Controller.Reconcile.Removed.{mentions}
use pluma_opeartor.Controller.Spared.{SparesLaws}
use pluma_opeartor.Controller.Reconcile.Spares.{reconcile-spares}
use pluma_opeartor.Tests.Memory.{Store, memory, member, remove, member-without}
use pluma_opeartor.Tests.Releases.{app_with, a_status, world}

abbrev pub cluster : Cluster
cluster = record memory { get = λ ns n w. (ok (app_with none (some a_status)), w) }

abbrev HasBase : Store → Type 0
HasBase w = member "base" w.releases ≡ true

others_removed : (n : String) → n ≢ "base" → (w : Store) → HasBase w → HasBase (remove n w).1
others_removed n h w p = ground (arith, member-without "base" n w.releases, eq_iff n "base")

one_more : (x : String) (xs : List String) → member "base" xs ≡ true → member "base" (x ∷ xs) ≡ true
one_more x xs h = ground arith

abbrev component_laws : ComponentLaws cluster HasBase
component_laws = record {
  reads = record {
    locate-P = λ i chart w p. p;
    load-P = λ path w p. p;
    history-P = λ cfg n w p. p;
    build_infos-P = λ cfg m w p. p;
  };
  install-P = λ cfg i chart values w p. one_more i.release_name w.releases p;
  upgrade-P = λ cfg u n chart values w p. p;
}

spares_laws : SparesLaws cluster "base" HasBase
spares_laws = record {
  component = component_laws;
  get-P = λ ns n w p. p;
  update-P = λ app w p. p;
  update_status-P = λ app w p. p;
  registry-P = λ w p. p;
  init-P = λ cfg ns w p. p;
  get_release-P = λ cfg n w p. p;
  uninstall-P = λ cfg n h w p. others_removed n h w p;
  update-spec = λ ns n app meta w g e. refl;
  update-status = λ ns n app meta w g e. refl;
}

reconcile-spares_example : HasBase (reconcile cluster "istio-system" "mesh" world).1
unfolding mentions
reconcile-spares_example =
    reconcile-spares cluster "base" spares_laws "istio-system" "mesh" world (inr (refl, refl)) refl
