-- ===== src/Scheme/Known.antt =====
-- What the schemes know when the packages are initialised.
use pluma_opeartor.Base.{◌≡◌, Option, none, some, List, [], ◌∷◌, All}
use pluma_opeartor.Effects.{
  GoError, Action, pure, panic, call, ◌>>=◌, if_error, Returns, bind-Returns, Returns_map,
}
use pluma_opeartor.Scheme.{
  GroupVersion, group_version, meta_version, ObjectType, helm_app_type, helm_app_list_type,
  SchemeLibrary, registered_types, resource_package, add_to_scheme, init_scheme, clientset_scheme,
  fake_scheme, packages,
}

-- What can be said of the pointers in a world.
pub record SchemeFacts {W : Type 0} (l : SchemeLibrary W) : Type 1 where
  -- The group version of a builder, which stays.
  pub Versioned : l.Builder → GroupVersion → Type 0
  -- The type was registered with the builder.
  pub Holds : l.Builder → ObjectType → W → Type 0
  pub Knows : l.Scheme → GroupVersion → ObjectType → W → Type 0
  -- The scheme knows no type of this group version.
  pub Free : l.Scheme → GroupVersion → W → Type 0

module _ {W : Type 0} {l : SchemeLibrary W} (F : SchemeFacts l) where
  -- No registration is lost.
  abbrev pub Extends : W → W → Type 0
  Extends w v =
      ((b : l.Builder) (k : ObjectType) → F.Holds b k w → F.Holds b k v)
      × ((s : l.Scheme) (gv : GroupVersion) (k : ObjectType) → F.Knows s gv k w → F.Knows s gv k v)

-- What is documented of apimachinery and controller-runtime: a registration stays; adding a builder
-- to a scheme that is free of its group version succeeds, and the scheme knows the types registered
-- by then; `AddToGroupVersion` leaves other groups alone; a slice of functions is run up to the
-- first error.
pub record SchemeLaws {W : Type 0} (l : SchemeLibrary W) (F : SchemeFacts l) : Type 0 where
  pub scheme-Free : (gv : GroupVersion) (w : W) → F.Free (l.new_scheme w).0 gv (l.new_scheme w).1
  pub scheme-Extends : (w : W) → Extends F w (l.new_scheme w).1
  pub builder-Versioned : (gv : GroupVersion) (w : W) → F.Versioned (l.new_builder gv w).0 gv
  pub register-Holds :
      (b : l.Builder) (kinds : List ObjectType) (w : W)
      → All (λ k. F.Holds b k (l.register b kinds w).1) kinds
  pub version-Free :
      (s : l.Scheme) (gv other : GroupVersion) (w : W)
      → (gv.group ≡ other.group → ⊥)
      → F.Free s other w
      → Returns (l.add_to_group_version s gv w) (λ t v. F.Free s other v × Extends F w v)
  pub add-Knows :
      (b : l.Builder) (s : l.Scheme) (gv : GroupVersion) (w : W)
      → F.Versioned b gv
      → F.Free s gv w
      → Returns (l.add_to_scheme b s w) (λ e v.
        (e ≡ none) × ((k : ObjectType) → F.Holds b k w → F.Knows s gv k v) × Extends F w v)
  pub run-nil : (s : l.Scheme) → l.run [] s ≡ pure none
  pub run-cons :
      (f : l.Scheme → Action W (Option GoError)) (fs : List (l.Scheme → Action W (Option GoError)))
      (s : l.Scheme)
      → l.run (f ∷ fs) s ≡ (f s >>= λ e. if_error e (λ x. pure (some x)) (l.run fs s))

module _ {W : Type 0} (l : SchemeLibrary W) (F : SchemeFacts l) (L : SchemeLaws l F) where
  abbrev pub KnowsAll : l.Scheme → W → Type 0
  KnowsAll s v = (k : ObjectType) → F.Knows s group_version k v

  abbrev HoldsAll : l.Builder → W → Type 0
  HoldsAll b v = (k : ObjectType) → F.Holds b k v

  abbrev Added : l.Scheme → W → Option GoError → W → Type 0
  Added s w e v = (e ≡ none) × KnowsAll s v × Extends F w v

  abbrev Ready : l.Builder → W → Type 0
  Ready b v = F.Versioned b group_version × HoldsAll b v

  Extends-trans : {u v w : W} → Extends F u v → Extends F v w → Extends F u w
  Extends-trans (h, k) (h', k') = (λ b t p. h' b t (h b t p), λ s gv t p. k' s gv t (k s gv t p))

  all_types : (P : ObjectType → Type 0) → All P registered_types → (k : ObjectType) → P k
  all_types P (h, hs) helm_app_type = h
  all_types P (h, hs) helm_app_list_type = hs.0

  stop-Added :
      (s : l.Scheme) (w : W) (e : Option GoError) (v : W)
      → Added s w e v
      → Returns (if_error e (λ x. pure (some x)) (pure none) v) (Added s w)
  unfolding if_error pure
  stop-Added s w none v h = h
  stop-Added s w (some x) v h = h

  -- A slice that holds one builder's method.
  run_one-Added :
      (b : l.Builder) (s : l.Scheme) (w : W)
      → F.Versioned b group_version
      → HoldsAll b w
      → F.Free s group_version w
      → Returns (l.run (add_to_scheme l b ∷ []) s w) (Added s w)
  run_one-Added b s w gv h free =
      rw (L.run-cons, L.run-nil)
        (bind-Returns (Added s w) (Added s w) _ _ _
          (Returns_map
            (λ e v.
              (e ≡ none)
              × ((k : ObjectType) → F.Holds b k w → F.Knows s group_version k v)
              × Extends F w v)
            (Added s w) (l.add_to_scheme b s w) (L.add-Knows b s group_version w gv free)
            (λ e v (n, k, x). (n, (λ t. k t (h t)), x)))
          (stop-Added s w))

  -- A scheme that knows the types, in a world that lost no registration since `w`.
  abbrev Filled : W → l.Scheme → W → Type 0
  Filled w s v = KnowsAll s v × Extends F w v

  Added-Filled :
      (s : l.Scheme) (u w : W) (e : Option GoError) (v : W)
      → Extends F u w
      → Added s w e v
      → Returns (if_error e (λ x. panic) (pure s) v) (Filled u)
  unfolding if_error pure panic
  Added-Filled s u w none v x (n, k, y) = (k, Extends-trans x y)
  Added-Filled s u w (some e) v x (n, k, y) = cc

  groups_differ : meta_version.group ≡ group_version.group → ⊥
  groups_differ e = cc

  init_scheme-Filled :
      (b : l.Builder) (w : W) (s : l.Scheme) (u : W)
      → Ready b u
      → F.Free s group_version u
      → Extends F w u
      → Returns (init_scheme l (l.run (add_to_scheme l b ∷ [])) s u) (Filled w)
  unfolding init_scheme
  init_scheme-Filled b w s u (gv, h) free x =
      bind-Returns (λ t v. F.Free s group_version v × Extends F u v) (Filled w) _ _ _
        (L.version-Free s meta_version group_version u groups_differ free)
        (λ t v (free', y).
          bind-Returns (Added s v) (Filled w) _ _ _
            (run_one-Added b s v gv (λ k. y.0 b k (h k)) free')
            (λ e z a. Added-Filled s w v e z (Extends-trans x y) a))

  -- What either package makes of a new scheme.
  new_scheme-Filled :
      (b : l.Builder) (w : W)
      → Ready b w
      → Returns
          ((call l.new_scheme >>= init_scheme l (l.run (add_to_scheme l b ∷ []))) w)
          (Filled w)
  unfolding call ◌>>=◌
  new_scheme-Filled b w (gv, h) =
      let x = L.scheme-Extends w in
      init_scheme-Filled b w _ _ (gv, (λ k. x.0 b k (h k))) (L.scheme-Free group_version w) x

  -- Both schemes know both types.
  abbrev pub KnowBoth : l.Scheme × l.Scheme → W → Type 0
  KnowBoth (s, t) v = KnowsAll s v × KnowsAll t v

  resource_package-Ready : (w : W) → Returns (resource_package l w) Ready
  unfolding resource_package call pure ◌>>=◌
  resource_package-Ready w =
      (L.builder-Versioned group_version w, all_types _ (L.register-Holds _ registered_types _))

  -- The initialisation of the packages does not panic, and afterwards the schemes of the clients and of
  -- the fake clients both know HelmApp and HelmAppList under operator.pluma.io/v1alpha1, although
  -- `AddToScheme` is bound to its builder before `init` registers them. The documented laws of the
  -- schemes are assumed.
  pub packages-KnowBoth : (w : W) → Returns (packages l w) KnowBoth
  unfolding packages clientset_scheme fake_scheme pure
  packages-KnowBoth w = bind-Returns Ready KnowBoth _ _ _ (resource_package-Ready w) (λ b u (gv, h).
      bind-Returns (Filled u) KnowBoth _ _ _ (new_scheme-Filled b u (gv, h)) (λ s v (k, x).
        bind-Returns (Filled v) KnowBoth _ _ _ (new_scheme-Filled b v (gv, (λ t. x.0 b t (h t))))
          (λ t z (k', y). ((λ o. y.1 s group_version o (k o)), k'))))
