-- ===== src/Controller/Reconcile/Removed.antt =====
-- Which releases a reconcile uninstalls.
use pluma_opeartor.Base.{
  String, ◌≡◌, refl, ◌∙◌, Bool, false, not, ◌||◌, ◌==◌, Option, none, some, is_some, List, [], ◌∷◌,
  arith, inl, inr, Bool-cases, if◌then◌else◌,
}
use pluma_opeartor.Base.Dict
use pluma_opeartor.Base.Dict.{Dict}
use pluma_opeartor.Effects.{GoError, Action, pure, ◌>>=◌, bind_cong}
use pluma_opeartor.Api.{HelmComponent, HelmComponentStatus}
use pluma_opeartor.Cluster.{Cluster}
use pluma_opeartor.Controller.Uninstall.{uninstall_component}
use pluma_opeartor.Controller.Reconcile.{
  desired_components, is_removed, uninstall_failure, uninstall_removed,
}

-- A component of the spec has the name.
unfoldable pub mentions : List HelmComponent → String → Bool
mentions [] name = false
mentions (component ∷ components) name = component.name == name || mentions components name

-- The statuses that have a name of their own and that the spec no longer mentions.
unfoldable pub orphans : List HelmComponent → List HelmComponentStatus → List HelmComponentStatus
unfolding mentions
orphans components [] = []
orphans components (s ∷ statuses) =
    if mentions components s.name || s.name == ""
    then orphans components statuses
    else s ∷ orphans components statuses

is_some-desired :
    (components : List HelmComponent) (desired : Dict HelmComponent) (name : String)
    → is_some (Dict.lookup name (desired_components components desired))
      ≡ (mentions components name || is_some (Dict.lookup name desired))
unfolding desired_components mentions
is_some-desired [] desired name = refl
is_some-desired (component ∷ components) desired name =
    is_some-desired components (Dict.insert component.name component desired) name
    ∙ ground (arith, Dict.lookup-insert component.name name component desired)

pub is_removed_lem :
    (components : List HelmComponent) (s : HelmComponentStatus)
    → is_removed (desired_components components []) s
      ≡ not (mentions components s.name || s.name == "")
unfolding is_removed
is_removed_lem components s =
    rw (is_some-desired components [] s.name) (unfold Dict.lookup in ground arith)

module _ (c : Cluster) where
  -- Uninstall each, and report those that fail.
  unfoldable pub uninstall_each :
      c.Config → List HelmComponentStatus → Action c.World (List HelmComponentStatus)
  unfolding ◌>>=◌
  uninstall_each cfg [] = pure []
  uninstall_each cfg (s ∷ statuses) = do
    e ← uninstall_component c cfg s.name
    rest ← uninstall_each cfg statuses
    pure (elim e [ none ↦ rest | some failure ↦ uninstall_failure c s failure ∷ rest ])

  -- The rest of a round, after the call for `s`.
  rest_cong :
      (s : HelmComponentStatus) (m n : Action c.World (List HelmComponentStatus))
      (e : Option GoError) (w : c.World)
      → m w ≡ n w
      → (m >>= λ rest.
            pure (elim e [ none ↦ rest | some failure ↦ uninstall_failure c s failure ∷ rest ]))
          w
        ≡ (n >>= λ rest.
              pure (elim e [ none ↦ rest | some failure ↦ uninstall_failure c s failure ∷ rest ]))
            w
  unfolding ◌>>=◌
  rest_cong s m n e w h = rw h

  -- The releases that a reconcile uninstalls are those of the reported statuses that have a name
  -- and that no component of the spec mentions, each one once and in the order of the report, and
  -- it keeps the failed ones of them as failed statuses, in every world.
  pub uninstall_removed-orphans :
      (cfg : c.Config) (components : List HelmComponent) (statuses : List HelmComponentStatus)
      (w : c.World)
      → uninstall_removed c cfg (desired_components components []) statuses w
        ≡ uninstall_each cfg (orphans components statuses) w
  unfolding uninstall_removed uninstall_each orphans
  uninstall_removed-orphans cfg components [] w = refl
  uninstall_removed-orphans cfg components (s ∷ statuses) w =
      elim (Bool-cases (mentions components s.name || s.name == "")) [
        | inl e ↦
            rw (is_removed_lem components s, e)
              (uninstall_removed-orphans cfg components statuses w)
        | inr e ↦
            rw (is_removed_lem components s, e)
              (bind_cong (uninstall_component c cfg s.name) w (λ x v.
                rest_cong s (uninstall_removed c cfg (desired_components components []) statuses)
                  (uninstall_each cfg (orphans components statuses)) x v
                  (uninstall_removed-orphans cfg components statuses v)))
      ]
