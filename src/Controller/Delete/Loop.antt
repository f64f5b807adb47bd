-- ===== src/Controller/Delete/Loop.antt =====
-- The deletion loop walks the slice from its end and cuts elements out of it by index. It agrees
-- with a recursion over the reversed list, which needs no index.
use mathlib.Core.Path.{ap₂}
use mathlib.Core.List.{reverse, reverse-append}
use pluma_opeartor.Base.{
  ℕ, String, zero, suc, ◌<◌, ◌≤◌, ◌≡◌, ◌↔◌, ◌⊎◌, inl, inr, Bool-cases, ◌==◌, refl, ap, ◌∙◌, Bool,
  true, false, Option, none, some, List, [], ◌∷◌, ◌++◌, arith, set, take, drop, length, All,
  if◌then◌else◌, take-suc, take-set, drop-set, drop-suc-set, take-take-append, drop-take-append,
  take-length, drop-length, length-set, le-length-take-append, get_elem?-some,
}
use pluma_opeartor.Effects.{GoError, Action, pure, bind_cong, Returns, bind-Returns, ◌>>=◌}
use pluma_opeartor.Api.{HelmComponentStatus}
use pluma_opeartor.Cluster.{Cluster, Release}
use pluma_opeartor.Controller.Delete.{delete_one, delete_loop}
use pluma_opeartor.Controller.Uninstall.{uninstall_found, uninstall_component}
use pluma_opeartor.Controller.Phase.{IsFailed}

module _ (c : Cluster) (cfg : c.Config) where
  -- The components, the last one first, and those that were kept behind them.
  unfoldable pub delete_reversed :
      List HelmComponentStatus
      → List HelmComponentStatus
      → Bool
      → Action c.World (List HelmComponentStatus × Bool)
  unfolding ◌>>=◌
  delete_reversed [] kept all = pure (kept, all)
  delete_reversed (component ∷ before) kept all = do
    (component', clean) ← delete_one c cfg component
    delete_reversed before (if clean then kept else component' ∷ kept)
        (if clean then all else false)

  -- One round of the loop leaves the slices on which the next rounds work.
  round : List HelmComponentStatus → ℕ → HelmComponentStatus → Bool → List HelmComponentStatus
  round cs i v clean = let cs' = set cs i v in if clean then take i cs' ++ drop (suc i) cs' else cs'

  round-slices :
      (cs : List HelmComponentStatus) (i : ℕ) (v : HelmComponentStatus) (clean : Bool)
      → i < length cs
      → (take i (round cs i v clean) ≡ take i cs)
        × (drop i (round cs i v clean) ≡ (if clean then drop (suc i) cs else v ∷ drop (suc i) cs))
        × (i ≤ length (round cs i v clean))
  unfolding round
  round-slices cs i v true h = (
    take-take-append (set cs i v) (drop (suc i) (set cs i v)) i
          (omega (arith, length-set {0} cs i v))
        ∙ take-set cs i v,
    drop-take-append (set cs i v) (drop (suc i) (set cs i v)) i
          (omega (arith, length-set {0} cs i v))
        ∙ drop-suc-set cs i v,
    le-length-take-append (set cs i v) _ i (omega (arith, length-set {0} cs i v)),
  )
  round-slices cs i v false h =
      (take-set cs i v, drop-set cs i v h, omega (arith, length-set {0} cs i v))

  delete_loop-eq :
      (i : ℕ) (cs : List HelmComponentStatus) (all : Bool) (w : c.World)
      → i ≤ length cs
      → delete_loop c cfg i cs all w ≡ delete_reversed (reverse (take i cs)) (drop i cs) all w
  unfolding delete_loop delete_reversed round
  delete_loop-eq zero cs all w h = refl
  delete_loop-eq (suc i) cs all w h =
      let (x, e) = get_elem?-some cs i (omega arith) in
      rw (take-suc cs i e, reverse-append, e, delete_loop)
        (bind_cong (delete_one c cfg x) w (λ (x', clean) v.
          let r = round-slices cs i x' clean (omega arith) in
          delete_loop-eq i (round cs i x' clean) (if clean then all else false) v r.2
          ∙ ap₂ (λ xs ys. delete_reversed xs ys (if clean then all else false) v) (ap reverse r.0)
              r.1))

  -- The deletion loop over all components, which cuts a slice by index while it walks it backwards,
  -- gives in every world the result and the world of a recursion over the reversed components,
  -- which reads no index: it treats each component once, the last one first, and puts those that
  -- it has to keep in front of those that it kept before.
  pub delete_loop-refines :
      (cs : List HelmComponentStatus) (w : c.World)
      → delete_loop c cfg (length cs) cs true w ≡ delete_reversed (reverse cs) [] true w
  delete_loop-refines cs w =
      delete_loop-eq (length cs) cs true w (omega arith) ∙ rw (take-length cs, drop-length cs) refl

  uninstall_found-Returns :
      (name : String) (e : Option GoError) (release : Option Release) (w : c.World)
      → Returns (uninstall_found c cfg name e release w) (λ _ _. Unit {0})
  unfolding uninstall_found
  uninstall_found-Returns name (some failure) release w = tt
  uninstall_found-Returns name none none w = tt
  uninstall_found-Returns name none (some release) w = tt

  -- An uninstall returns, with or without an error.
  uninstall_component-Returns :
      (name : String) (w : c.World) → Returns (uninstall_component c cfg name w) (λ _ _. Unit {0})
  unfolding uninstall_component
  uninstall_component-Returns name w = uninstall_found-Returns name _ _ _

  -- What the uninstall of one component returns: nothing is kept, or a failure.
  abbrev Deleted : HelmComponentStatus × Bool → c.World → Type 0
  Deleted (component, clean) w = (clean ≡ true) ⊎ ((clean ≡ false) × IsFailed c component)

  delete_one-Deleted :
      (component : HelmComponentStatus) (w : c.World)
      → Returns (delete_one c cfg component w) Deleted
  unfolding delete_one
  delete_one-Deleted component w = elim (Bool-cases (component.name == "")) [
    | inl e ↦ rw (e, delete_one) (inl refl)
    | inr e ↦
        rw (e, delete_one)
          (bind-Returns (λ _ _. Unit {0}) Deleted (uninstall_component c cfg component.name) _ w
            (uninstall_component-Returns component.name w)
            (elim [ none ↦ λ v u. inl refl | some failure ↦ λ v u. inr (refl, refl) ]))
  ]

  -- The flag says that nothing is kept, and what is kept is a failure.
  abbrev pub Kept : List HelmComponentStatus × Bool → c.World → Type 0
  Kept (kept, all) w = ((all ≡ true) ↔ (kept ≡ [])) × All (IsFailed c) kept

  keep_step :
      (component : HelmComponentStatus) (clean : Bool) (kept : List HelmComponentStatus)
      (all : Bool) (v w : c.World)
      → Deleted (component, clean) v
      → Kept (kept, all) w
      → Kept (if clean then kept else component ∷ kept, if clean then all else false) v
  keep_step component true kept all v w d k = k
  keep_step component false kept all v w (inl e) k = cc
  keep_step component false kept all v w (inr d) k = ((λ h. cc, λ h. cc), (d.1, k.1))

  delete_reversed-Kept :
      (cs kept : List HelmComponentStatus) (all : Bool) (w : c.World)
      → Kept (kept, all) w
      → Returns (delete_reversed cs kept all w) Kept
  unfolding delete_reversed
  delete_reversed-Kept [] kept all w k = k
  delete_reversed-Kept (component ∷ cs) kept all w k =
      bind-Returns Deleted Kept (delete_one c cfg component) _ w (delete_one-Deleted component w)
        (λ (component', clean) v d.
          delete_reversed-Kept cs _ _ v (keep_step component' clean kept all v w d k))

  -- The deletion loop returns in every world. Its flag is up exactly if no component is kept, and
  -- every component that it keeps has the failed status.
  pub delete_loop-Kept :
      (cs : List HelmComponentStatus) (w : c.World)
      → Returns (delete_loop c cfg (length cs) cs true w) Kept
  delete_loop-Kept cs w =
      rw (delete_loop-refines cs w)
        (delete_reversed-Kept (reverse cs) [] true w ((λ h. refl, λ h. refl), tt))
