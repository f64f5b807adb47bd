-- ===== src/Tests/Clients.antt =====
-- The clients of HelmApps, and an informer that is asked for twice.
use Prim.Native.Char.{Char, code}
use pluma_opeartor.Base.{
  ℕ, suc, ◌*◌, ◌^◌, ◌≤◌, ◌<◌, ◌≡◌, ◌↔◌, refl, sym, ap, subst, ◌∙◌, String, Bool, ◌==◌, eqb,
  eqb_refl, eq_iff, Bool-cases, inl, inr, if◌then◌else◌, true, false, ◌<>◌, Option, none, some, [],
  ◌∷◌, arith,
}
use pluma_opeartor.Constants.{second}
use pluma_opeartor.Effects.{GoError, ok, Returns, api_not_found}
use pluma_opeartor.Api.{HelmApp}
use pluma_opeartor.Client.Fake.{Object, app_object}
use pluma_opeartor.Informers.HelmApps.Listers.{Index, namespace_get}
use pluma_opeartor.Informers.HelmApps.Listers.Keys.{IndexLaws, meta_key, namespace_get-names}
use pluma_opeartor.Tests.Releases.{app_with}
use pluma_opeartor.Client.{ListOptions, HelmApps, new_helm_apps, list_timeout}
use pluma_opeartor.Client.Fake.{Resource, helmapps_resource}
use pluma_opeartor.Client.Timeout.{list_timeout-exact}
use pluma_opeartor.Client.Sets.{ClientGo, RestConfig, float_positive, new_for_config_and_client}
use pluma_opeartor.Client.Sets.Limits.{LimiterLaws, OnOk, SharesLimiter, clients_share_limiter}
use pluma_opeartor.Informers.{
  new_filtered_factory, Cache, Factory, new_factory_with_options, with_namespace,
  with_tweak_list_options,
}
use pluma_opeartor.Informers.HelmApps.{SharedCache, GenericInformer, for_resource}
use pluma_opeartor.Informers.HelmApps.Shared.{
  SharesInformer, for_resource-SharesInformer, ReadsHelmApps, filtered_factory-ReadsHelmApps,
}

abbrev list_options : ListOptions
list_options = record {
  label_selector = "pluma.io/managed=pluma-operator";
  field_selector = "";
  timeout_seconds = some 30;
  watch = false;
  others = "";
}

abbrev helm_apps : HelmApps
helm_apps = new_helm_apps "istio-system"

list_timeout-exact_example :
    ((list_timeout list_options ≡ 30 * second) × (list_timeout list_options < 2 ^ 63))
    ↔ (30 ≤ 9_223_372_036)
list_timeout-exact_example = list_timeout-exact list_options 30 refl (omega arith)

-- Clients are the configuration that they are made of, and the world counts the limiters.
abbrev client_go : ClientGo ℕ
client_go = record {
  HttpClient = Unit {0};
  RestClient = Option ℕ;
  DiscoveryClient = Option ℕ;
  Limiter = ℕ;
  Serializer = Unit {0};
  default_user_agent = "manager/v0.0.0";
  without_conversion = tt;
  new_limiter = λ qps burst w. (w, suc w);
  http_client_for = λ c w. (ok tt, w);
  rest_client_for = λ c http w. (ok c.rate_limiter, w);
  discovery_for = λ c http w. (ok c.rate_limiter, w);
  new_discovery = λ r. r;
}

from_ok : {a b : Option ℕ} → ok a ≡ ok b → a ≡ b
from_ok e = cc

limiter_laws : LimiterLaws client_go
limiter_laws = record {
  rest_limiter = λ r. r;
  discovery_limiter = λ d. d;
  rest_uses = λ c http w r l e h. sym (from_ok e) ∙ h;
  discovery_uses = λ c http w d l e h. sym (from_ok e) ∙ h;
}

-- A rate of 5 and a burst of 10
abbrev config : RestConfig client_go
config = record {
  user_agent = "";
  qps = 1_084_227_584;
  burst = 10;
  rate_limiter = none;
  group_version = none;
  api_path = "";
  negotiated_serializer = none;
  others = "";
}

clients_share_limiter_example :
    Returns
      (new_for_config_and_client client_go config tt 7)
      (λ r v. OnOk (SharesLimiter client_go limiter_laws 7 config) r)
unfolding float_positive
clients_share_limiter_example = clients_share_limiter client_go limiter_laws config tt 7 refl

-- An informer is its resync period, and a tweak is a label selector.
abbrev cache : Cache
cache = record {
  Client = Unit {0};
  Tweak = String;
  Informer = ℕ;
  wait_for_cache_sync = λ informer. true;
}

abbrev shared : SharedCache cache
shared = record {
  Indexers = Unit {0};
  Indexer = ℕ;
  namespace_indexers = tt;
  tweak = λ selector options. record options { label_selector = selector };
  new_shared_index_informer = λ lw resync indexers. resync;
  get_indexer = λ informer. informer;
}

abbrev factory : Factory cache
factory =
    new_factory_with_options tt 30
      (with_namespace "istio-system" ∷ with_tweak_list_options "app=mesh" ∷ [])

abbrev show : Resource → String
show r = r.group <> "/" <> r.version <> ", Resource=" <> r.resource

for_resource-SharesInformer_example :
    SharesInformer shared show helmapps_resource factory
      (for_resource shared show helmapps_resource factory)
for_resource-SharesInformer_example =
    for_resource-SharesInformer shared show helmapps_resource factory

filtered_factory-ReadsHelmApps_example :
    (g : GenericInformer cache) × (f : Factory cache) × (for_resource shared show helmapps_resource
        (new_filtered_factory tt 30 "istio-system" "app=mesh")
      ≡ (ok g, f))
    × ReadsHelmApps shared tt "istio-system" "app=mesh" 30 g.informer
filtered_factory-ReadsHelmApps_example =
    filtered_factory-ReadsHelmApps shared show tt 30 "istio-system" "app=mesh"

-- An index that holds one HelmApp.
abbrev held : HelmApp
held = record (app_with none none) {
  meta = record (app_with none none).meta { namespace = "ns"; name = "m" };
}

abbrev index : Index
index = record {
  Selector = Unit {0};
  list_all = λ selector. (app_object held ∷ [], none);
  list_all_by_namespace = λ ns selector. (app_object held ∷ [], none);
  get_by_key =
      λ key. if key == "ns/m" then (some (app_object held), true, none) else (none, false, none);
  new_not_found = λ kind name. record { kind = api_not_found; message = name };
}

false_found : false ≡ true → ⊥
false_found e = cc

-- Characters whose numbers differ are not equal.
not_slash : {c d : Char} → c ≡ d → eqb (code c) (code d) ≡ false → ⊥
not_slash {c} {d} e f =
    let g : eqb (code d) (code d) ≡ false = subst (λ x. eqb (code x) (code d) ≡ false) e f in
    false_found (sym g ∙ eqb_refl (code d))

abbrev app_in : Option Object × Bool × Option GoError → HelmApp
app_in (some (app_object app), exists, e) = app
app_in _ = held

key_of_held : (key : String) (app : HelmApp) → key ≡ "ns/m" → held ≡ app → meta_key app ≡ key
unfolding meta_key
key_of_held key app k h = ap meta_key (sym h) ∙ sym k

index_laws : IndexLaws index
index_laws = record {
  found_key = λ key app e. elim (Bool-cases (key == "ns/m")) [
    | inl b ↦ key_of_held key app ((eq_iff key "ns/m").0 b) (ap app_in (rw b at e))
    | inr b ↦ absurd (false_found (ap (λ r. r.1) (rw b at e)))
  ];
}

namespace_get-names_example : (held.meta.namespace ≡ "ns") × (held.meta.name ≡ "m")
unfolding namespace_get
namespace_get-names_example =
    namespace_get-names index index_laws "ns" "m" held
      (λ e. not_slash e refl, (λ e. not_slash e refl, tt))
      (λ e. not_slash e refl, (λ e. not_slash e refl, tt)) (λ e. not_slash e refl, tt) refl
