-- ===== src/Client/Fake/Clientset/Found.antt =====
-- What the fake clientset is given is what it gives back.
use pluma_opeartor.Base.{
  map, String, true, ◌≡◌, refl, Option, none, some, List, [], ◌∷◌, All, Option-cases, inl, inr,
}
use pluma_opeartor.Effects.{
  GoError, Outcome, done, panicked, continue, pure, panic, ◌>>=◌, if_error,
}
use pluma_opeartor.Api.{HelmApp}
use pluma_opeartor.Client.Fake.{
  helmapps_resource, get_action, FakeAction, Object, app_object, as_app, fake_action, fake_get,
}
use pluma_opeartor.Client.Fake.Clientset.{
  Reactor, Testing, add_all, object_reactor, clientset, FakeClientset, new_simple_clientset,
  fake_operator, fake_helm_apps,
}

-- What is documented of the testing package: an object that was added stays while others are added, the
-- reaction over the tracker answers a `Get` of it, and `Fake` asks its first reactor first.
pub record TrackerLaws {W : Type 0} (t : Testing W) : Type 1 where
  pub Holds : HelmApp → W → Type 0
  pub add-Holds :
      (app : HelmApp) (w : W)
      → (t.add (app_object app) w).0 ≡ none
      → Holds app (t.add (app_object app) w).1
  pub add-keeps :
      (app : HelmApp) (o : Object) (w : W)
      → (t.add o w).0 ≡ none
      → Holds app w
      → Holds app (t.add o w).1
  pub reaction-found :
      (app : HelmApp) (w : W)
      → Holds app w
      → (t.object_reaction (get_action helmapps_resource app.meta.namespace app.meta.name) w).0
        ≡ (true, some (app_object app), none)
  pub run-first :
      (rs : List (Reactor W t.Restrictions)) (action : FakeAction t.Restrictions) (w : W)
      (o : Option Object) (e : Option GoError)
      → (t.object_reaction action w).0 ≡ (true, o, e)
      → (t.run (object_reactor t ∷ rs) action w).0 ≡ (o, e)

module _ {W : Type 0} (t : Testing W) (L : TrackerLaws t) where
  abbrev HoldsObject : W → Object → Type 0
  HoldsObject w (app_object app) = L.Holds app w
  HoldsObject w _ = Unit

  -- `Add` gave an error.
  abbrev pub AddFails : Type 0
  AddFails = (o : Object) × (u : W) × (e : GoError) × ((t.add o u).0 ≡ some e)

  abbrev AddsAll : List Object → W → Outcome (Unit {0}) × W → Type 0
  AddsAll objects w (done a, v) =
      ((app : HelmApp) → L.Holds app w → L.Holds app v) × All (HoldsObject v) objects
  AddsAll objects w (panicked, v) = AddFails

  object-Holds :
      (o : Object) (w v : W)
      → (t.add o w).0 ≡ none
      → ((app : HelmApp) → L.Holds app (t.add o w).1 → L.Holds app v)
      → HoldsObject v o
  object-Holds (app_object app) w v e k = k app (L.add-Holds app w e)
  object-Holds _ w v e k = tt

  AddsAll-cons :
      (o : Object) (objects : List Object) (w : W) (r : Outcome (Unit {0}) × W)
      → (t.add o w).0 ≡ none
      → AddsAll objects (t.add o w).1 r
      → AddsAll (o ∷ objects) w r
  AddsAll-cons o objects w (done a, v) e (k, h) =
      (λ app p. k app (L.add-keeps app o w e p), (object-Holds o w v e k, h))
  AddsAll-cons o objects w (panicked, v) e h = h

  add_all-AddsAll : (objects : List Object) (w : W) → AddsAll objects w (add_all t objects w)
  unfolding add_all pure panic if_error ◌>>=◌
  add_all-AddsAll [] w = (λ app h. h, tt)
  add_all-AddsAll (o ∷ objects) w = elim (Option-cases (t.add o w).0) [
    | inl e ↦
        rw (e, if_error) (AddsAll-cons o objects w _ e (add_all-AddsAll objects (t.add o w).1))
    | inr (x, e) ↦ rw (e, if_error) (o, w, x, e)
  ]

  get-found :
      (app : HelmApp) (options : String) (cs : FakeClientset t) (v : W)
      → cs.reactors ≡ object_reactor t ∷ []
      → L.Holds app v
      → (fake_get
          (fake_operator t cs)
          (fake_helm_apps app.meta.namespace)
          app.meta.name
          options
          v).0
        ≡ done (some app, none)
  unfolding fake_get fake_action as_app pure ◌>>=◌
  get-found app options cs v c h = rw (c, L.run-first [] _ v _ _ (L.reaction-found app v h)) refl

  -- `Get` of each of the objects, by its namespace and name.
  abbrev pub GivesBack : List HelmApp → Outcome (FakeClientset t) × W → Type 0
  GivesBack apps (done cs, v) =
      (options : String)
      → All
          (λ app.
            (fake_get (fake_operator t cs) (fake_helm_apps app.meta.namespace) app.meta.name options
              v).0
            ≡ done (some app, none))
          apps
  GivesBack apps (panicked, v) = AddFails

  held-GivesBack :
      (apps : List HelmApp) (cs : FakeClientset t) (v : W)
      → cs.reactors ≡ object_reactor t ∷ []
      → All (HoldsObject v) (map app_object apps)
      → GivesBack apps (done cs, v)
  held-GivesBack [] cs v c h options = tt
  held-GivesBack (app ∷ apps) cs v c (h, hs) options =
      (get-found app options cs v c h, held-GivesBack apps cs v c hs options)

  made-GivesBack :
      (apps : List HelmApp) (w : W) (r : Outcome (Unit {0}) × W)
      → AddsAll (map app_object apps) w r
      → GivesBack apps (continue r.0 (λ added. pure (clientset t)) r.1)
  unfolding pure
  made-GivesBack apps w (done a, v) (k, h) = held-GivesBack apps (clientset t) v refl h
  made-GivesBack apps w (panicked, v) h = h

  -- A fake clientset that is made of HelmApps gives each of them back, without an error, to a `Get`
  -- by its namespace and name. If it cannot be made, which is a panic, then the tracker failed to
  -- add an object. The documented laws of the tracker and of its reaction are assumed.
  pub new_simple_clientset-GivesBack :
      (apps : List HelmApp) (w : W)
      → GivesBack apps (new_simple_clientset t (map app_object apps) w)
  unfolding new_simple_clientset pure ◌>>=◌
  new_simple_clientset-GivesBack apps w =
      made-GivesBack apps w (add_all t (map app_object apps) w)
        (add_all-AddsAll (map app_object apps) w)
