-- ===== src/Controller/Delete/Sweep.antt =====
-- What the deletion loop leaves of the releases that it goes through.
use mathlib.Core.List.{reverse, reverse_aux}
use pluma_opeartor.Base.{
  String, ◌≡◌, ◌≢◌, inl, inr, Bool-cases, ◌==◌, eq_iff, refl, Bool, true, false, Option, none, some,
  List, [], ◌∷◌, arith, All, length, if◌then◌else◌,
}
use pluma_opeartor.Effects.{GoError, Returns, Returns_map, bind-Returns}
use pluma_opeartor.Api.{HelmApp, HelmComponentStatus}
use pluma_opeartor.Cluster.{Cluster, Release}
use pluma_opeartor.Controller.Delete.{delete_one, delete_loop}
use pluma_opeartor.Controller.Delete.Loop.{delete_reversed, delete_loop-refines}
use pluma_opeartor.Controller.Uninstall.{uninstall_found, uninstall_component, other_error}

-- What the proof relies on of Helm and the Kubernetes client. `Installed w ns name` says that there
-- is a release of that name, and `Finalized w` is any property of the stored HelmApp that only an
-- update of the whole object can end, such as that it bears the finalizer.
pub record Laws (c : Cluster) : Type 1 where
  pub Installed : c.World → String → String → Type 0
  pub IsConfig : c.Config → String → Type 0
  pub Finalized : c.World → Type 0
  -- a configuration acts in the namespace for which it was initialised
  pub init-IsConfig :
      (cfg : c.Config) (ns : String) (w : c.World)
      → (c.init cfg ns w).0.0 ≡ none
      → IsConfig (c.init cfg ns w).0.1 ns
  -- a release that is not found is not installed, and neither is one that was uninstalled
  pub get_release-absent :
      (cfg : c.Config) (ns name : String) (w : c.World)
      → IsConfig cfg ns
      → other_error (c.get_release cfg name w).0.1 ≡ none
      → (c.get_release cfg name w).0.0 ≡ none
      → ¬ Installed (c.get_release cfg name w).1 ns name
  pub uninstall-absent :
      (cfg : c.Config) (ns name : String) (w : c.World)
      → IsConfig cfg ns
      → other_error (c.uninstall cfg name w).0 ≡ none
      → ¬ Installed (c.uninstall cfg name w).1 ns name
  -- none of these calls installs a release
  pub get_release-installs :
      (cfg : c.Config) (name : String) (w : c.World) (ns m : String)
      → Installed (c.get_release cfg name w).1 ns m
      → Installed w ns m
  pub uninstall-installs :
      (cfg : c.Config) (name : String) (w : c.World) (ns m : String)
      → Installed (c.uninstall cfg name w).1 ns m
      → Installed w ns m
  pub update_status-installs :
      (app : HelmApp) (w : c.World) (ns m : String)
      → Installed (c.update_status app w).1 ns m
      → Installed w ns m
  pub update-installs :
      (app : HelmApp) (w : c.World) (ns m : String)
      → Installed (c.update app w).1 ns m
      → Installed w ns m
  -- and only the update of the object takes the finalizer off
  pub registry-Finalized : (w : c.World) → Finalized w → Finalized (c.new_registry_client w).1
  pub init-Finalized :
      (cfg : c.Config) (ns : String) (w : c.World) → Finalized w → Finalized (c.init cfg ns w).1
  pub get_release-Finalized :
      (cfg : c.Config) (name : String) (w : c.World)
      → Finalized w
      → Finalized (c.get_release cfg name w).1
  pub uninstall-Finalized :
      (cfg : c.Config) (name : String) (w : c.World)
      → Finalized w
      → Finalized (c.uninstall cfg name w).1
  pub update_status-Finalized :
      (app : HelmApp) (w : c.World) → Finalized w → Finalized (c.update_status app w).1

module _ (c : Cluster) (L : Laws c) where
  -- From `w` to `v` nothing was installed, and the finalizer was not taken off.
  pub record Shrinks (ns : String) (w v : c.World) : Type 0 where
    pub installs : (m : String) → L.Installed v ns m → L.Installed w ns m
    pub finalized : L.Finalized w → L.Finalized v

  Shrinks-trans : {ns : String} {u v w : c.World} → Shrinks ns u v → Shrinks ns v w → Shrinks ns u w
  Shrinks-trans s t = record {
    installs = λ m i. s.installs m (t.installs m i);
    finalized = λ f. t.finalized (s.finalized f);
  }

  Shrinks-get :
      (cfg : c.Config) (name ns : String) (w : c.World) → Shrinks ns w (c.get_release cfg name w).1
  Shrinks-get cfg name ns w = record {
    installs = L.get_release-installs cfg name w ns;
    finalized = L.get_release-Finalized cfg name w;
  }

  Shrinks-uninstall :
      (cfg : c.Config) (name ns : String) (w : c.World) → Shrinks ns w (c.uninstall cfg name w).1
  Shrinks-uninstall cfg name ns w = record {
    installs = L.uninstall-installs cfg name w ns;
    finalized = L.uninstall-Finalized cfg name w;
  }

  -- Without an error there is no release any more.
  record Gone (ns name : String) (w : c.World) (e : Option GoError) (v : c.World) : Type 0 where
    shrinks : Shrinks ns w v
    gone : e ≡ none → ¬ L.Installed v ns name

  module _ (cfg : c.Config) (ns : String) (is_config : L.IsConfig cfg ns) where
    uninstall_found-Gone :
        (name : String) (w : c.World)
        → let (answer, v) = c.get_release cfg name w in
          (e : Option GoError) (release : Option Release)
          → other_error answer.1 ≡ e
          → answer.0 ≡ release
          → Returns (uninstall_found c cfg name e release v) (Gone ns name w)
    unfolding uninstall_found
    uninstall_found-Gone name w (some failure) release p q = record {
      shrinks = Shrinks-get cfg name ns w;
      gone = λ h. absurd (cc);
    }
    uninstall_found-Gone name w none none p q = record {
      shrinks = Shrinks-get cfg name ns w;
      gone = λ h. L.get_release-absent cfg ns name w is_config p q;
    }
    uninstall_found-Gone name w none (some release) p q = record {
      shrinks =
          Shrinks-trans (Shrinks-get cfg name ns w)
            (Shrinks-uninstall cfg name ns (c.get_release cfg name w).1);
      gone = λ h. L.uninstall-absent cfg ns name (c.get_release cfg name w).1 is_config h;
    }

    uninstall_component-Gone :
        (name : String) (w : c.World) → Returns (uninstall_component c cfg name w) (Gone ns name w)
    unfolding uninstall_component
    uninstall_component-Gone name w = uninstall_found-Gone name w _ _ refl refl

    -- A component that has a name is not installed.
    abbrev pub Absent : c.World → HelmComponentStatus → Type 0
    Absent w component = component.name ≢ "" → ¬ L.Installed w ns component.name

    pub record Cleaned (cs : List HelmComponentStatus) (w : c.World) (all : Bool) (v : c.World)
        : Type 0 where
      pub shrinks : Shrinks ns w v
      pub absent : all ≡ true → All (Absent v) cs

    delete_one-Cleaned :
        (component : HelmComponentStatus) (w : c.World)
        → Returns (delete_one c cfg component w) (λ r v. Cleaned (component ∷ []) w r.1 v)
    unfolding delete_one
    delete_one-Cleaned component w = elim (Bool-cases (component.name == "")) [
      | inl e ↦
          rw (e, delete_one)
            (record {
              shrinks = record { installs = λ m i. i; finalized = λ f. f };
              absent = λ h. ((λ n. absurd (n ((eq_iff component.name "").0 e))), tt);
            })
      | inr e ↦
          rw (e, delete_one)
            (bind-Returns (Gone ns component.name w) _ (uninstall_component c cfg component.name) _
              w (uninstall_component-Gone component.name w)
              (elim [
                | none ↦
                    λ v g. record { shrinks = g.shrinks; absent = λ h. ((λ n. g.gone refl), tt) }
                | some failure ↦ λ v g. record { shrinks = g.shrinks; absent = λ h. absurd (cc) }
              ]))
    ]

    -- The same for the rest of the loop, whose flag was `before` and is `all` in the end.
    record Swept (cs : List HelmComponentStatus) (before : Bool) (w : c.World) (all : Bool)
        (v : c.World) : Type 0 where
      cleaned : Cleaned cs w all v
      flag : all ≡ true → before ≡ true

    Swept-cons :
        (component : HelmComponentStatus) (cs : List HelmComponentStatus) (clean before all : Bool)
        (w v u : c.World)
        → Cleaned (component ∷ []) w clean v
        → Swept cs (if clean then before else false) v all u
        → Swept (component ∷ cs) before w all u
    Swept-cons component cs true before all w v u d s = record {
      cleaned = record {
        shrinks = Shrinks-trans d.shrinks s.cleaned.shrinks;
        absent = λ h. (
          (λ n i. (d.absent refl).0 n (s.cleaned.shrinks.installs component.name i)),
          s.cleaned.absent h,
        );
      };
      flag = s.flag;
    }
    Swept-cons component cs false before all w v u d s = record {
      cleaned = record {
        shrinks = Shrinks-trans d.shrinks s.cleaned.shrinks;
        absent = λ h. absurd (ground (arith, s.flag h));
      };
      flag = λ h. absurd (ground (arith, s.flag h));
    }

    delete_reversed-Swept :
        (cs kept : List HelmComponentStatus) (before : Bool) (w : c.World)
        → Returns (delete_reversed c cfg cs kept before w) (λ r v. Swept cs before w r.1 v)
    unfolding delete_reversed
    delete_reversed-Swept [] kept before w = record {
      cleaned = record {
        shrinks = record { installs = λ m i. i; finalized = λ f. f };
        absent = λ h. tt;
      };
      flag = λ h. h;
    }
    delete_reversed-Swept (component ∷ cs) kept before w =
        bind-Returns (λ r v. Cleaned (component ∷ []) w r.1 v)
          (λ r v. Swept (component ∷ cs) before w r.1 v) (delete_one c cfg component) _ w
          (delete_one-Cleaned component w)
          (λ (component', clean) v d.
            Returns_map (λ r u. Swept cs (if clean then before else false) v r.1 u)
              (λ r u. Swept (component ∷ cs) before w r.1 u) _
              (delete_reversed-Swept cs _ (if clean then before else false) v)
              (λ r u s. Swept-cons component cs clean before r.1 w v u d s))

    All-reverse_aux :
        (P : HelmComponentStatus → Type 0) (xs ys : List HelmComponentStatus)
        → All P (reverse_aux xs ys)
        → All P xs × All P ys
    All-reverse_aux P [] ys h = (tt, h)
    All-reverse_aux P (x ∷ xs) ys h =
        let (hx, hy) = All-reverse_aux P xs (x ∷ ys) h in ((hy.0, hx), hy.1)

    pub delete_loop-Cleaned :
        (cs : List HelmComponentStatus) (w : c.World)
        → Returns (delete_loop c cfg (length cs) cs true w) (λ r v. Cleaned cs w r.1 v)
    delete_loop-Cleaned cs w = rw (delete_loop-refines c cfg cs w) (
        Returns_map (λ r v. Swept (reverse cs) true w r.1 v) (λ r v. Cleaned cs w r.1 v) _
          (delete_reversed-Swept (reverse cs) [] true w)
          (λ r v s. record {
            shrinks = s.cleaned.shrinks;
            absent = λ h. (All-reverse_aux (Absent v) cs [] (s.cleaned.absent h)).0;
          }))
