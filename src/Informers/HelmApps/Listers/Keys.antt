-- ===== src/Informers/HelmApps/Listers/Keys.antt =====
-- The keys of the index: a namespace, a slash and a name.
use Prim.Native.Char.{Char}
use Prim.Native.String.{String, [], ◌∷◌, ◌++◌}
use text.Mathlib.TextLemmas.{
  nil-append, cons-append, cons-ne-nil, head-eq_of_cons-eq, tail-eq_of_cons-eq,
}
use pluma_opeartor.Base.{
  Bool, true, false, ◌≡◌, refl, sym, ap, ap₂, ◌∙◌, Option, none, some, ◌==◌, ◌<>◌, Bool-cases, inl,
  inr, if◌then◌else◌,
}
use pluma_opeartor.Effects.{GoError, ok, done}
use pluma_opeartor.Api.{HelmApp}
use pluma_opeartor.Client.Fake.{Object, app_object, list_object, other_object}
use pluma_opeartor.Informers.HelmApps.Listers.{
  Index, answered, new_helm_app_lister, namespace_lister, namespace_get,
}

abbrev slash : Char
slash = "/"

-- The text has no slash.
abbrev pub SlashFree : String → Type 0
SlashFree [] = Unit
SlashFree (c ∷ s) = (c ≡ slash → ⊥) × SlashFree s

slash-append : (s t : String) → s <> "/" <> t ≡ s ++ (slash ∷ t)
slash-append s t = ap (λ x. s ++ x) (cons-append slash [] t ∙ ap (λ x. slash ∷ x) (nil-append t))

split_inj :
    (s t u v : String)
    → SlashFree s
    → SlashFree t
    → s ++ (slash ∷ u) ≡ t ++ (slash ∷ v)
    → (s ≡ t) × (u ≡ v)
split_inj [] [] u v f g e = (refl, tail-eq_of_cons-eq (sym (nil-append _) ∙ e ∙ nil-append _))
split_inj [] (d ∷ t) u v f (g, h) e =
    absurd (g (sym (head-eq_of_cons-eq (sym (nil-append _) ∙ e ∙ cons-append d t _))))
split_inj (c ∷ s) [] u v (f, k) g e =
    absurd (f (head-eq_of_cons-eq (sym (cons-append c s _) ∙ e ∙ nil-append _)))
split_inj (c ∷ s) (d ∷ t) u v (f, k) (g, h) e =
    let e' = sym (cons-append c s _) ∙ e ∙ cons-append d t _ in
    let (p, q) = split_inj s t u v k h (tail-eq_of_cons-eq e') in
    (ap₂ (λ x y. x ∷ y) (head-eq_of_cons-eq e') p, q)

no_slash : (s t u : String) → SlashFree s → s ≡ t ++ (slash ∷ u) → ⊥
no_slash [] [] u f e = cons-ne-nil slash u (sym (nil-append _) ∙ sym e)
no_slash [] (d ∷ t) u f e = cons-ne-nil d _ (sym (cons-append d t _) ∙ sym e)
no_slash (c ∷ s) [] u (f, g) e = f (head-eq_of_cons-eq (e ∙ nil-append _))
no_slash (c ∷ s) (d ∷ t) u (f, g) e = no_slash s t u g (tail-eq_of_cons-eq (e ∙ cons-append d t _))

-- `MetaNamespaceKeyFunc`, which keys an object of a namespace and one of no namespace.
unfoldable pub meta_key : HelmApp → String
meta_key app =
    if app.meta.namespace == "" then app.meta.name else app.meta.namespace <> "/" <> app.meta.name

-- What is documented of the index: what it finds under a key is an object of that key.
pub record IndexLaws (i : Index) : Type 0 where
  pub found_key :
      (key : String) (app : HelmApp)
      → i.get_by_key key ≡ (some (app_object app), true, none)
      → meta_key app ≡ key

meta_key-split :
    (app : HelmApp) (ns n : String)
    → SlashFree ns
    → SlashFree app.meta.namespace
    → SlashFree app.meta.name
    → meta_key app ≡ ns <> "/" <> n
    → (app.meta.namespace ≡ ns) × (app.meta.name ≡ n)
unfolding meta_key
meta_key-split app ns n f g h e = elim (Bool-cases (app.meta.namespace == "")) [
  | inl b ↦ absurd (no_slash app.meta.name ns n h ((rw b at e) ∙ slash-append ns n))
  | inr b ↦
      split_inj app.meta.namespace ns app.meta.name n g f
        (sym (slash-append app.meta.namespace app.meta.name) ∙ (rw b at e) ∙ slash-append ns n)
]

module _ (i : Index) (L : IndexLaws i) where
  answered-found :
      (n : String) (a : Option Object × Bool × Option GoError) (app : HelmApp)
      → answered i n a ≡ done (ok app)
      → a ≡ (some (app_object app), true, none)
  answered-found n (obj, exists, some x) app e = absurd cc
  answered-found n (obj, false, none) app e = absurd cc
  answered-found n (some (app_object a), true, none) app e = cc
  answered-found n (some (list_object l), true, none) app e = absurd cc
  answered-found n (some other_object, true, none) app e = absurd cc
  answered-found n (none, true, none) app e = absurd cc

  -- Given that the index finds under a key only objects of that key, and that no namespace and no
  -- name has a slash: a HelmApp that `Get` hands out has the namespace of the lister and the name
  -- that was asked for.
  pub namespace_get-names :
      (ns n : String) (app : HelmApp)
      → SlashFree ns
      → SlashFree app.meta.namespace
      → SlashFree app.meta.name
      → namespace_get (namespace_lister (new_helm_app_lister i) ns) n ≡ done (ok app)
      → (app.meta.namespace ≡ ns) × (app.meta.name ≡ n)
  unfolding namespace_get
  namespace_get-names ns n app f g h e =
      meta_key-split app ns n f g h
        (L.found_key _ app (answered-found n (i.get_by_key (ns <> "/" <> n)) app e))
