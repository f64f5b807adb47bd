-- ===== src/Informers/HelmApps/Listers.antt =====
-- The listers of HelmApps: apis/client/listers/operator/v1alpha1/helmapp.go.
pub mod Keys
use pluma_opeartor.Base.{String, Bool, true, false, Option, none, some, List, [], ◌∷◌, ◌++◌, ◌<>◌}
use pluma_opeartor.Effects.{GoError, Result, ok, err, Outcome, done, panicked}
use pluma_opeartor.Scheme.{GroupResource, resource}
use pluma_opeartor.Api.{HelmApp}
use pluma_opeartor.Client.Fake.{Object, app_object}

-- What the listers take from client-go: the objects that `ListAll` and `ListAllByNamespace` hand to
-- their function, with their error, the index, and the error of an object that is not there, for
-- a qualified resource and a name.
pub record Index : Type 1 where
  pub Selector : Type 0
  pub list_all : Selector → List Object × Option GoError
  pub list_all_by_namespace : String → Selector → List Object × Option GoError
  pub get_by_key : String → Option Object × Bool × Option GoError
  pub new_not_found : GroupResource → String → GoError

-- `ret = append(ret, m.(*v1alpha1.HelmApp))` for one object after the other
unfoldable pub append_apps : List HelmApp → List Object → Outcome (List HelmApp)
append_apps ret [] = done ret
append_apps ret (app_object app ∷ objects) = append_apps (ret ++ (app ∷ [])) objects
append_apps ret (_ ∷ objects) = panicked

abbrev pub as_listed :
    Option GoError → Outcome (List HelmApp) → Outcome (List HelmApp × Option GoError)
as_listed e (done apps) = done (apps, e)
as_listed e panicked = panicked

-- `helmAppLister`, and `helmAppNamespaceLister`
pub record HelmAppLister : Type 1 where
  pub indexer : Index

pub record HelmAppNamespaceLister : Type 1 where
  pub indexer : Index
  pub namespace : String

abbrev pub new_helm_app_lister : Index → HelmAppLister
new_helm_app_lister indexer = record { indexer = indexer }

-- `List` of all HelmApps
unfoldable pub list_apps :
    (s : HelmAppLister) → s.indexer.Selector → Outcome (List HelmApp × Option GoError)
list_apps s selector =
    let (objects, e) = s.indexer.list_all selector in as_listed e (append_apps [] objects)

-- `HelmApps(namespace)`
abbrev pub namespace_lister : HelmAppLister → String → HelmAppNamespaceLister
namespace_lister s namespace = record { indexer = s.indexer; namespace = namespace }

unfoldable pub namespace_list :
    (s : HelmAppNamespaceLister) → s.indexer.Selector → Outcome (List HelmApp × Option GoError)
namespace_list s selector =
    let (objects, e) = s.indexer.list_all_by_namespace s.namespace selector in
    as_listed e (append_apps [] objects)

-- What `Get` makes of the index's answer.
abbrev answered : Index → String → Option Object × Bool × Option GoError → Outcome (Result HelmApp)
answered i name (obj, exists, some e) = done (err e)
answered i name (obj, false, none) = done (err (i.new_not_found (resource "helmapp") name))
answered i name (some (app_object app), true, none) = done (ok app)
answered i name (_, true, none) = panicked

unfoldable pub namespace_get : HelmAppNamespaceLister → String → Outcome (Result HelmApp)
namespace_get s name = answered s.indexer name (s.indexer.get_by_key (s.namespace <> "/" <> name))
