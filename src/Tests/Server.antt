-- ===== src/Tests/Server.antt =====
-- A server that keeps the HelmApp of one IstioOperator, and whether the operator bears its
-- finalizer. It refuses to create an object that is there, and to write an object that changed.
use pluma_opeartor.Base.{
  String, ◌≡◌, refl, sym, ap, ◌∙◌, ◌⊎◌, Bool, true, false, not, ◌==◌, ◌&&◌, Option, none, some, [],
  ◌∷◌, arith,
}
use pluma_opeartor.Effects.{GoError, plain, api_not_found, Result, ok, err, Returns}
use pluma_opeartor.Api.{HelmApp}
use pluma_opeartor.Istio.Resource.{IstioOperator}
use pluma_opeartor.Istio.Reconcile.{Cluster, is_managed, reconcile, reconcile_delete}
use pluma_opeartor.Istio.Reconcile.Foreign.{ForeignLaws, reconcile-Foreign}
use pluma_opeartor.Istio.Reconcile.Deletion.{DeletionLaws, finalizer_guards_helm_app}
use pluma_opeartor.Tests.Operators.{library, operator_with}

pub record Server : Type 0 where
  pub stored : Option HelmApp
  pub has_finalizer : Bool

abbrev conflict : GoError
conflict = record { kind = plain; message = "conflict" }

abbrev foreign_app : HelmApp
foreign_app = record {
  meta = record {
    name = "mesh";
    namespace = "istio-system";
    labels = none;
    finalizers = [];
    deletion_timestamp = none;
  };
  spec = none;
  status = none;
}

abbrev same_version : Option HelmApp → HelmApp → Bool
same_version none app = false
same_version (some stored) app = elim stored.meta.labels [
  | none ↦ not (is_managed app)
  | some labels ↦ is_managed app
]

-- A write is done, or refused.
abbrev write : Bool → Option HelmApp → Server → Option GoError × Server
write true new w = (none, record w { stored = new })
write false new w = (some conflict, w)

abbrev is_finalized : IstioOperator → Bool
is_finalized iop = elim iop.meta.finalizers [ [] ↦ false | f ∷ fs ↦ true ]

abbrev answer : Option HelmApp → Result HelmApp
answer none = err (record { kind = api_not_found; message = "not found" })
answer (some app) = ok app

abbrev pub server : Cluster
server = record {
  World = Server;
  is_zero = elim [ none ↦ true | some t ↦ false ];
  contains_finalizer = λ fs f. false;
  add_finalizer = λ fs f. f ∷ fs;
  remove_finalizer = λ fs f. [];
  ignore_not_found = λ e. some e;
  same_spec = λ a b w. false;
  get_iop = λ ns name w. (ok (operator_with none), w);
  update_iop = λ iop w. ((none, iop), record w { has_finalizer = is_finalized iop });
  get_app = λ ns name w. (answer w.stored, w);
  create_app = λ app w. elim w.stored [
    | none ↦ (none, record w { stored = some app })
    | some old ↦ (some conflict, w)
  ];
  update_app = λ app w. write (same_version w.stored app) (some app) w;
  delete_app = λ app w. write (same_version w.stored app) none w;
}

abbrev IsForeign : Server → Type 0
IsForeign w = w.stored ≡ some foreign_app

guarded :
    (app : HelmApp) (w : Server) (new : Option HelmApp)
    → is_managed app ≡ true
    → IsForeign w
    → IsForeign (write (same_version w.stored app) new w).1
guarded app w new m f =
    let refused : same_version w.stored app ≡ false = ap (λ o. same_version o app) f ∙ ap not m in
    rw refused f

create_keeps : (app : HelmApp) (w : Server) → IsForeign w → IsForeign (server.create_app app w).1
create_keeps app w f = ground arith

server_laws : ForeignLaws server IsForeign
server_laws = record {
  get_iop-Foreign = λ ns name w f. f;
  update_iop-Foreign = λ iop w f. f;
  get_app-Foreign = λ ns name w f. f;
  create_app-Foreign = create_keeps;
  update_app-Foreign = λ app m w f. guarded app w (some app) m f;
  delete_app-Foreign = λ app m w f. guarded app w none m f;
}

reconcile-Foreign_example :
    IsForeign
      (reconcile server library "profiles" "istio-system" "mesh"
        (record { stored = some foreign_app; has_finalizer = true })).1
reconcile-Foreign_example =
    reconcile-Foreign server server_laws library "profiles" "istio-system" "mesh"
      (record { stored = some foreign_app; has_finalizer = true }) refl

written :
    (b : Bool) (new : Option HelmApp) (w : Server)
    → (write b new w).0 ≡ none
    → (write b new w).1.stored ≡ new
written true new w h = refl
written false new w h = cc

-- The HelmApp that stands there bears the label and the name.
abbrev Stands : Option HelmApp → String → Type 0
Stands stored name =
    (app : HelmApp) × (stored ≡ some app) × ((app.meta.name == name && is_managed app) ≡ true)

nothing-Stands : (stored : Option HelmApp) (name : String) → stored ≡ none → ¬ Stands stored name
nothing-Stands stored name h (app, e, m) = cc

abbrev test : String → Result HelmApp → Bool
test name (ok app) = app.meta.name == name && is_managed app
test name (err e) = false

other-Stands :
    (stored : Option HelmApp) (name : String) (app : HelmApp)
    → answer stored ≡ ok app
    → (app.meta.name == name && is_managed app) ≡ false
    → ¬ Stands stored name
other-Stands none name app f m s = cc
other-Stands (some x) name app f m (y, e, n) =
    let same : ok y ≡ ok app = ap answer (sym e) ∙ f in
    let contradiction : true ≡ false = sym n ∙ ap (λ r. test name r) same ∙ m in cc

write_keeps :
    (b : Bool) (new : Option HelmApp) (w : Server)
    → w.has_finalizer ≡ true
    → (write b new w).1.has_finalizer ≡ true
write_keeps true new w h = h
write_keeps false new w h = h

none_found : (stored : Option HelmApp) (e : GoError) → answer stored ≡ err e → stored ≡ none
none_found none e h = refl
none_found (some app) e h = cc

abbrev deletion_laws : DeletionLaws server
deletion_laws = record {
  Standing = λ w ns name. Stands w.stored name;
  Finalized = λ w. w.has_finalizer ≡ true;
  not_found = λ ns name w e f b. nothing-Stands w.stored name (none_found w.stored e f);
  found_other = λ ns name w app f m. other-Stands w.stored name app f m;
  deleted = λ ns name w app f h. nothing-Stands _ name (written _ none w h);
  update_iop-Standing = λ iop w ns name s. s;
  get_app-Finalized = λ ns name w f. f;
  delete_app-Finalized = λ app w f. write_keeps _ none w f;
}

finalizer_guards_helm_app_example :
    Returns
      (reconcile_delete server
        (operator_with none)
        (record { stored = some foreign_app; has_finalizer = true }))
      (λ e v. (v.has_finalizer ≡ true) ⊎ (¬ Stands v.stored "mesh"))
finalizer_guards_helm_app_example =
    finalizer_guards_helm_app server deletion_laws (operator_with none)
      (record { stored = some foreign_app; has_finalizer = true }) refl
